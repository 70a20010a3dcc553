-- ===== src/Bin/Smooth.antt =====
-- src/bin: what the programs do when none of their actions throws.
use contentv.Prelude.{
  ◌≡◌, ◌≢◌, ◌⊎◌, refl, ap, ◌∙◌, String, List, [], ◌∷◌, ◌++◌, if◌then◌else◌, inl, inr,
}
use contentv.Prelude.Result.{Result, ok}
use contentv.Bin.Args.{Given, Parser, Cli, notify, cli_action, parse_args}
use contentv.Bin.{
  Action, parse_config, init_scheduler, init_page_db, init_page_db_scylla, init_worker, init_api,
  start_scheduler, start_worker, join_scheduler, join_worker, Ran, perform, perform_all,
  return_code, with_config, on_action, configured, ret_code, Found, contentd_tail, contentd_body,
}

-- No action throws.
abbrev pub IsSmooth : (Action → Result (Unit {0})) → Type 0
IsSmooth act = (a : Action) → act a ≡ ok tt

abbrev pub behind : List Action → Ran → Ran
behind l rest = record { did = l ++ rest.did; exit = rest.exit }

perform-smooth :
    (act : Action → Result (Unit {0})) (a : Action) (rest : Ran)
    → IsSmooth act
    → perform act a rest ≡ behind (a ∷ []) rest
unfolding perform
perform-smooth act a rest h = rw (h a, perform) refl

pub perform_all-smooth :
    (act : Action → Result (Unit {0})) (l : List Action) (rest : Ran)
    → IsSmooth act
    → perform_all act l rest ≡ behind l rest
unfolding perform_all
perform_all-smooth act [] rest h = refl
perform_all-smooth act (a ∷ l) rest h =
    ap (perform act a) (perform_all-smooth act l rest h) ∙ perform-smooth act a (behind l rest) h

pub with_config-smooth :
    (act : Action → Result (Unit {0})) (s : Cli) (rest : Ran)
    → IsSmooth act
    → with_config act s rest ≡ behind (parse_config s.config_path ∷ []) rest
unfolding with_config
with_config-smooth act s rest h = rw (h (parse_config s.config_path), with_config) refl

pub configured-on_action :
    (act : Action → Result (Unit {0})) (po : Parser) (s : Cli) (argv : List String) (vm : Given)
    (body : Cli → Ran)
    → po argv ≡ ok vm
    → configured act body (parse_args po s argv)
      ≡ on_action act body (cli_action (notify s vm.config) vm)
unfolding configured parse_args
configured-on_action act po s argv vm body e = rw (e, parse_args) refl

-- What `contentd` does behind its page store.
abbrev pub stored : Found → Cli → Ran
stored f s = behind (init_worker s.is_dry_run ∷ init_api ∷ []) (
    if s.is_dry_run
    then return_code (ret_code f.worker_stats f.scheduler_stats)
    else behind (start_scheduler ∷ start_worker ∷ join_scheduler ∷ join_worker ∷ [])
        (return_code 0))

contentd_tail-smooth : (f : Found) (s : Cli) → IsSmooth f.act → contentd_tail f s ≡ stored f s
unfolding contentd_tail
contentd_tail-smooth f s h =
    perform_all-smooth f.act (init_worker s.is_dry_run ∷ init_api ∷ []) _ h
    ∙ ap
        (λ r.
          behind (init_worker s.is_dry_run ∷ init_api ∷ [])
            (if s.is_dry_run then return_code (ret_code f.worker_stats f.scheduler_stats) else r))
        (perform_all-smooth f.act
          (start_scheduler ∷ start_worker ∷ join_scheduler ∷ join_worker ∷ []) (return_code 0) h)

-- The page stores that `contentd` knows.
abbrev pub IsKnown : String → Type 0
IsKnown impl = (impl ≡ "ldb") ⊎ (impl ≡ "scylla")

contentd_page_db :
    (f : Found) (s : Cli) (page_db : Action)
    → IsSmooth f.act
    → contentd_body f s
      ≡ perform f.act
          (init_scheduler s.is_dry_run s.is_under_bazel_test)
          (perform f.act page_db (contentd_tail f s))
    → contentd_body f s
      ≡ behind (init_scheduler s.is_dry_run s.is_under_bazel_test ∷ page_db ∷ []) (stored f s)
unfolding perform perform_all
contentd_page_db f s page_db h e =
    e
    ∙ (perform_all-smooth f.act (init_scheduler s.is_dry_run s.is_under_bazel_test ∷ page_db ∷ [])
          (contentd_tail f s) h
        ∙ ap (behind (init_scheduler s.is_dry_run s.is_under_bazel_test ∷ page_db ∷ []))
            (contentd_tail-smooth f s h))

pub contentd_body-smooth :
    (f : Found) (s : Cli)
    → IsSmooth f.act
    → IsKnown f.page_db_impl
    → (page_db : Action) × (page_db ≢ start_scheduler)
      × (contentd_body f s
          ≡ behind (init_scheduler s.is_dry_run s.is_under_bazel_test ∷ page_db ∷ []) (stored f s))
unfolding contentd_body
contentd_body-smooth f s h (inl e) =
    (init_page_db, (λ c. cc), contentd_page_db f s init_page_db h (rw (e, contentd_body) refl))
contentd_body-smooth f s h (inr e) = (
  init_page_db_scylla,
  (λ c. cc),
  contentd_page_db f s init_page_db_scylla h (rw (e, contentd_body) refl),
)
