-- ===== src/Core/FreqStats/Reduce.antt =====
-- src/core/Types.cpp: `reduceUrlFreqs` against the sum over its input.
use contentv.Prelude.{ℕ, ◌+◌, ◌≡◌, String, List, [], ◌∷◌, none, some, str_eq, All, if◌then◌else◌}
use contentv.Prelude.Dict.{Dict, find}
use contentv.Core.FreqMap.{UrlFreq}

-- The sum of the frequencies of the url in the list.
pub freq_in : String → List UrlFreq → ℕ
freq_in u [] = 0
freq_in u (e ∷ es) = (if str_eq e.0 u then e.1 else 0) + freq_in u es

freq_at : String → Dict UrlFreq → ℕ
freq_at u r = elim (find u r) [ none ↦ 0 | some f ↦ f.1 ]

-- Every value stands under its own url.
abbrev pub Keyed : Dict UrlFreq → Type 0
Keyed = All (λ e. e.1.0 ≡ e.0)
