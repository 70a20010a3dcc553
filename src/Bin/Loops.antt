-- ===== src/Bin/Loops.antt =====
-- src/bin: which of the programs' runs start a loop.
use contentv.Prelude.{
  ◌≡◌, ◌≢◌, ◌↔◌, ◌⊎◌, refl, sym, subst, String, List, [], ◌∷◌, Bool, true, false, inl, inr,
}
use contentv.Prelude.Result.{Result, ok}
use contentv.Bin.Args.{
  Given, Parser, Cli, notify, cli_action, contentd_cli, sched_cli, workd_cli, contentd_parse_args,
  sched_parse_args, workd_parse_args,
}
use contentv.Bin.{
  Action, parse_config, start_scheduler, start_worker, Ran, return_code, with_config, on_action,
  Found, contentd_body, contentd, sched_actions, sched_body, sched, workd_actions, workd_body,
  workd,
}
use contentv.Bin.Smooth.{
  IsSmooth, perform_all-smooth, with_config-smooth, configured-on_action, stored, IsKnown,
  contentd_body-smooth,
}

-- The action was begun.
abbrev pub Begun : Action → List Action → Type 0
Begun a [] = ⊥
Begun a (b ∷ l) = (b ≡ a) ⊎ Begun a l

-- Nothing that asks the program to do something else was given.
abbrev pub IsPlain : Given → Type 0
IsPlain vm = (vm.help ≡ false) × (vm.config_help ≡ false)

clash : {A : Type 0} → true ≡ false → A
clash e = cc

-- A program's body, which begins the action `a` as `P` says of `m_is_dry_run`, and which is begun with
-- every action as it should be.
module _ (act : Action → Result (Unit {0})) (a : Action) (P : Bool → Type 0) (body : Cli → Ran)
    (smooth : IsSmooth act) (other : (path : String) → parse_config path ≢ a)
    (body_iff : (s : Cli) → Begun a (body s).did ↔ P s.is_dry_run) where
  with_config-Begun : (s : Cli) → Begun a (with_config act s (body s)).did ↔ P s.is_dry_run
  with_config-Begun s =
      subst (λ (r : Ran). Begun a r.did ↔ P s.is_dry_run)
        (sym (with_config-smooth act s (body s) smooth))
        (
          (λ x. elim x [ inl e ↦ absurd (other s.config_path e) | inr y ↦ (body_iff s).0 y ]),
          (λ p. inr ((body_iff s).1 p)),
        )

  on_action-Begun :
      (s : Cli) (vm : Given)
      → (help dry_run config_help : Bool) → vm.help ≡ help
      → vm.config_help ≡ config_help
      → vm.dry_run ≡ dry_run
      → Begun a (on_action act body (cli_action s vm)).did ↔ (IsPlain vm × P vm.dry_run)
  unfolding on_action cli_action
  on_action-Begun s vm true d ch e f g = rw e ((λ x. absurd x), (λ x. clash (x.0.0)))
  on_action-Begun s vm false d true e f g = rw (e, f) ((λ x. absurd x), (λ x. clash (x.0.1)))
  on_action-Begun s vm false true false e f g =
      let i = with_config-Begun (record s { is_dry_run = true }) in
      rw (e, f, g) ((λ x. ((refl, refl), i.0 x)), (λ x. i.1 (x.1)))
  on_action-Begun s vm false false false e f g =
      let i =
        with_config-Begun (record s { is_dry_run = false; is_under_bazel_test = vm.bazel_test }) in
      rw (e, f, g) ((λ x. ((refl, refl), i.0 x)), (λ x. i.1 (x.1)))

plain_iff : {A B : Type 0} → A ↔ (B × Unit {0}) → A ↔ B
plain_iff h = ((λ x. (h.0 x).0), (λ y. h.1 (y, tt)))

stored_iff :
    (f : Found) (s : Cli) (dry : Bool)
    → s.is_dry_run ≡ dry
    → Begun start_scheduler (stored f s).did ↔ (s.is_dry_run ≡ false)
stored_iff f s true e = rw e (
  (λ x. elim x [ inl c ↦ cc | inr y ↦ elim y [ inl c ↦ cc | inr z ↦ absurd z ] ]),
  (λ x. clash x),
)
stored_iff f s false e = rw e ((λ x. refl), (λ x. inr (inr (inl refl))))

contentd_iff :
    (f : Found)
    → IsSmooth f.act
    → IsKnown f.page_db_impl
    → (s : Cli) → Begun start_scheduler (contentd_body f s).did ↔ (s.is_dry_run ≡ false)
contentd_iff f h k s =
    let b = contentd_body-smooth f s h k in
    subst (λ (r : Ran). Begun start_scheduler r.did ↔ (s.is_dry_run ≡ false)) (sym (b.2))
      (
        (λ x. elim x [
          | inl c ↦ cc
          | inr y ↦ elim y [
            | inl e ↦ absurd (b.1 e)
            | inr z ↦ (stored_iff f s s.is_dry_run refl).0 z
          ]
        ]),
        (λ e. inr (inr ((stored_iff f s s.is_dry_run refl).1 e))),
      )

sched_iff :
    (f : Found) → IsSmooth f.act → (s : Cli) → Begun start_scheduler (sched_body f s).did ↔ Unit {0}
unfolding sched_body
sched_iff f h s =
    subst (λ (r : Ran). Begun start_scheduler r.did ↔ Unit {0})
      (sym (perform_all-smooth f.act (sched_actions s) (return_code 0) h))
      ((λ x. tt), (λ x. inr (inr (inr (inl refl)))))

workd_iff :
    (f : Found) → IsSmooth f.act → (s : Cli) → Begun start_worker (workd_body f s).did ↔ Unit {0}
unfolding workd_body
workd_iff f h s =
    subst (λ (r : Ran). Begun start_worker r.did ↔ Unit {0})
      (sym (perform_all-smooth f.act (workd_actions s) (return_code 0) h))
      ((λ x. tt), (λ x. inr (inr (inr (inl refl)))))

module _ (f : Found) (po : Parser) (argv : List String) (vm : Given) where
  -- When no action throws and the page store is known, `contentd` starts the scheduler's loop exactly
  -- when it is given none of `--help`, `--config_help` and `--dry_run`; `sched` and `workd` start their
  -- loops exactly when they are given neither `--help` nor `--config_help`, so in a dry run too.
  pub starts_lem :
      IsSmooth f.act
      → po argv ≡ ok vm
      → IsKnown f.page_db_impl
      → (Begun start_scheduler (contentd f po argv).did ↔ (IsPlain vm × (vm.dry_run ≡ false)))
        × (Begun start_scheduler (sched f po argv).did ↔ IsPlain vm)
        × (Begun start_worker (workd f po argv).did ↔ IsPlain vm)
  unfolding contentd sched workd contentd_parse_args sched_parse_args workd_parse_args
  starts_lem h e k =
      let on =
        λ (s : Cli) (body : Cli → Ran). sym (configured-on_action f.act po s argv vm body e) in
      (
        subst (λ (r : Ran). Begun start_scheduler r.did ↔ (IsPlain vm × (vm.dry_run ≡ false)))
            (on contentd_cli (contentd_body f))
            (on_action-Begun f.act start_scheduler (λ b. b ≡ false) (contentd_body f) h (λ p e. cc)
              (contentd_iff f h k) (notify contentd_cli vm.config) vm vm.help vm.dry_run
              vm.config_help refl refl refl),
        subst (λ (r : Ran). Begun start_scheduler r.did ↔ IsPlain vm) (on sched_cli (sched_body f))
            (plain_iff (
              on_action-Begun f.act start_scheduler (λ b. Unit {0}) (sched_body f) h (λ p e. cc)
                (sched_iff f h) (notify sched_cli vm.config) vm vm.help vm.dry_run vm.config_help
                refl refl refl)),
        subst (λ (r : Ran). Begun start_worker r.did ↔ IsPlain vm) (on workd_cli (workd_body f))
            (plain_iff (
              on_action-Begun f.act start_worker (λ b. Unit {0}) (workd_body f) h (λ p e. cc)
                (workd_iff f h) (notify workd_cli vm.config) vm vm.help vm.dry_run vm.config_help
                refl refl refl)),
      )
