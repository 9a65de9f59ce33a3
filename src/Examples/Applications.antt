-- ===== src/Examples/Applications.antt =====
-- The application runner on test data (app/app.go): the start fails.
use modulex.Prelude.{refl, some, [], ◌∷◌}
use modulex.App.{AppOption, Hook, Options, new_options, run_manager}
use modulex.App.Ending.{IsEnded, run_manager-IsEnded}
use modulex.Examples.{db, api, empty_manager, no_deadline, quiet}

abbrev flush : Hook
flush = record { name = "flush"; takes = 2; result = some "broken pipe" }

abbrev with_flush : Options
with_flush = new_options (AppOption.with_pre_stop flush ∷ AppOption.with_post_stop flush ∷ [])

run_manager-IsEnded_example : IsEnded with_flush (
    run_manager with_flush no_deadline quiet quiet quiet [] (some api ∷ some db ∷ []) empty_manager)
run_manager-IsEnded_example =
    run_manager-IsEnded with_flush no_deadline quiet quiet quiet [] (some api ∷ some db ∷ [])
      empty_manager (λ m h. h) refl
