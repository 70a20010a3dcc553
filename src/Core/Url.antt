-- ===== src/Core/Url.antt =====
-- src/core/UrlParsed.h and .cpp, Robots.h and .cpp. The url parser (ada) and the matcher of
-- robots.txt files (googlebot) are parameters.
use Prim.Native.String.{◌++◌}
use contentv.Prelude.{String, Option, none, some, Bool, true, str_eq, if◌then◌else◌}
use contentv.Prelude.Text.{ends_with}
use contentv.Core.Records.{robots_postfix}

-- What `ada::parse` gives of a valid url.
pub record AdaUrl : Type 0 where
  pub host : String
  pub href : String
  pub protocol : String

pub record Web : Type 0 where
  pub ada_parse : String → Option AdaUrl
  -- the text of the file, the user agent, the url
  pub one_agent_allowed_by_robots : String → String → String → Bool

pub record UrlParsed : Type 0 where
  pub host : String
  pub normalized : String
  pub robots : String

abbrev pub user_agent : String
user_agent = "Mozilla/5.0 (compatible; YandexBot/3.0; +http://yandex.com/bots)"

unfoldable pub of_ada : AdaUrl → UrlParsed
of_ada u = record {
  host = u.host;
  normalized = u.href;
  robots = u.protocol ++ ("//" ++ (u.host ++ robots_postfix));
}

module _ (web : Web) where
  -- `none` is `!ok()`.
  unfoldable pub url_parsed : String → Option UrlParsed
  unfolding of_ada
  url_parsed url = elim (web.ada_parse url) [ none ↦ none | some u ↦ some (of_ada u) ]

  -- `Robots::isAllowed` of a file's text.
  unfoldable pub robots_allow : String → String → Bool
  robots_allow text url =
      if str_eq text "" then true else web.one_agent_allowed_by_robots text user_agent url

unfoldable pub is_robots_url : UrlParsed → Bool
unfolding ends_with
is_robots_url p = ends_with p.normalized robots_postfix
