-- ===== src/Lifecycle/Phase.antt =====
-- How a lifecycle phase ends (modulex.go: runPhase): with every module run, cancelled before one, or
-- broken off by the one that failed.
use modulex.Prelude.{
  ℕ, suc, String, ◌+◌, ◌≡◌, refl, sym, ◌∙◌, ap, inl, inr, true, false, none, some, List, [], ◌∷◌,
  ◌++◌, append_assoc, length, take, arith, Option-cases, Assoc, insert, ◌-◌,
}
use modulex.Errors.{CtxErr, Action, Error}
use modulex.Module.{Module}
use modulex.Manager.{Manager, Call}
use modulex.Tasks.{Ctx}
use modulex.Lifecycle.{Run, PhaseResult, run_phase}
use modulex.Lifecycle.Calls.{Logs, Logs-trans, Logs-nil, each}

-- The code of each module ran from `m` on, with the context not done before it, and returned no error;
-- `m'` is the manager after it.
abbrev pub AllRan : Ctx → Run → List Module → Manager → Manager → Type 0
AllRan ctx run [] m m' = m' ≡ m
AllRan ctx run (md ∷ mds) m m' =
    (ctx m.clock ≡ none) × ((run md m).1 ≡ none) × AllRan ctx run mds (run md m).0 m'

-- Why a phase over modules that begin with `done` ended there with the error: the context was done
-- before the next module, or the code of the next module returned an error.
pub data Cause (action : Action) (ctx : Ctx) (run : Run) (m : Manager) (done : List Module)
    : List Module → Error → Type 0 where
  ctx_done :
      (m' : Manager) (c : CtxErr)
      → AllRan ctx run done m m'
      → ctx m'.clock ≡ some c
      → Cause action ctx run m done [] (Error.phase_cancelled action c)
  module_erred :
      (m' : Manager) (at : Module) (text : String)
      → AllRan ctx run done m m'
      → ctx m'.clock ≡ none
      → (run at m').1 ≡ some text
      → Cause action ctx run m done (at ∷ []) (Error.module_failed action at.name text)

Cause-cons :
    {tried : List Module} {e : Error} (action : Action) (ctx : Ctx) (run : Run) (m : Manager)
    (md : Module) (done : List Module)
    → ctx m.clock ≡ none
    → (run md m).1 ≡ none
    → Cause action ctx run (run md m).0 done tried e
    → Cause action ctx run m (md ∷ done) tried e
Cause-cons action ctx run m md done p q (ctx_done m' c all h) = Cause.ctx_done m' c (p, q, all) h
Cause-cons action ctx run m md done p q (module_erred m' at text all h k) =
    Cause.module_erred m' at text (p, q, all) h k

-- The run of a phase over `mds`, from a count, with the calls that it made: `done` ran without an
-- error, and `at` is the module whose code returned one.
pub data PhaseEnd (action : Action) (ctx : Ctx) (run : Run) (m : Manager) (f : Module → List Call)
    (mds : List Module) (count : ℕ) (r : PhaseResult) (cs : List Call) : Type 0 where
  finished :
      (m' : Manager)
      → AllRan ctx run mds m m'
      → r.error ≡ none
      → r.attempted ≡ false
      → r.count ≡ count + length mds
      → cs ≡ each f mds
      → PhaseEnd action ctx run m f mds count r cs
  cancelled :
      (done rest : List Module) (e : Error)
      → mds ≡ done ++ rest
      → Cause action ctx run m done [] e
      → r.error ≡ some e
      → r.attempted ≡ false
      → r.count ≡ count + length done
      → cs ≡ each f done
      → PhaseEnd action ctx run m f mds count r cs
  broke :
      (done : List Module) (at : Module) (rest : List Module) (e : Error)
      → mds ≡ done ++ at ∷ rest
      → Cause action ctx run m done (at ∷ []) e
      → r.error ≡ some e
      → r.attempted ≡ true
      → r.count ≡ count + length done
      → cs ≡ each f done ++ f at
      → PhaseEnd action ctx run m f mds count r cs

PhaseEnd-cons :
    (action : Action) (ctx : Ctx) (run : Run) (m : Manager) (f : Module → List Call) (md : Module)
    (mds : List Module) (count : ℕ) (r : PhaseResult) (cs : List Call)
    → ctx m.clock ≡ none
    → (run md m).1 ≡ none
    → PhaseEnd action ctx run (run md m).0 f mds (suc count) r cs
    → PhaseEnd action ctx run m f (md ∷ mds) count r (f md ++ cs)
PhaseEnd-cons action ctx run m f md mds count r cs t q (finished m' all a b c d) =
    PhaseEnd.finished m' (t, q, all) a b (omega (arith, c)) (ap (λ l. f md ++ l) d)
PhaseEnd-cons action ctx run m f md mds count r cs t q (cancelled done rest e p why a b c d) =
    PhaseEnd.cancelled (md ∷ done) rest e (ap (λ l. md ∷ l) p)
      (Cause-cons action ctx run m md done t q why) a b (omega (arith, c)) (ap (λ l. f md ++ l) d)
PhaseEnd-cons action ctx run m f md mds count r cs t q (broke done at rest e p why a b c d) =
    PhaseEnd.broke (md ∷ done) at rest e (ap (λ l. md ∷ l) p)
      (Cause-cons action ctx run m md done t q why) a b (omega (arith, c))
      (ap (λ l. f md ++ l) d ∙ sym (append_assoc (f md) (each f done) (f at)))

-- The phase's manager and result, with the calls.
pub record PhaseLog (action : Action) (ctx : Ctx) (run : Run) (f : Module → List Call)
    (mds : List Module) (count : ℕ) (m : Manager) (out : Manager × PhaseResult) : Type 0 where
  pub calls : List Call
  pub logs : Logs m out.0 calls
  pub end : PhaseEnd action ctx run m f mds count out.1 calls

module _ (action : Action) (ctx : Ctx) (run : Run) (f : Module → List Call)
    (one : (md : Module) (m : Manager) → Logs m (run md m).0 (f md)) where
  pub run_phase-log :
      (mds : List Module) (count : ℕ) (timings : Assoc ℕ) (m : Manager)
      → PhaseLog action ctx run f mds count m (run_phase action ctx run mds count timings m)
  unfolding run_phase
  run_phase-log [] count timings m = record {
    calls = [];
    logs = Logs-nil m;
    end = PhaseEnd.finished m refl refl refl (omega arith) refl;
  }
  run_phase-log (md ∷ mds) count timings m = elim (Option-cases (ctx m.clock)) [
    | inr (c, e) ↦
        rw (e, run_phase)
          (record {
            calls = [];
            logs = Logs-nil m;
            end =
                PhaseEnd.cancelled [] (md ∷ mds) _ refl (Cause.ctx_done m c refl e) refl refl
                  (omega arith) refl;
          })
    | inl e ↦
        rw (e, run_phase)
          (elim (Option-cases (run md m).1) [
            | inr (text, q) ↦ rw q (record {
              calls = f md;
              logs = one md m;
              end =
                  PhaseEnd.broke [] md mds _ refl (Cause.module_erred m md text refl e q) refl refl
                    (omega arith) refl;
            })
            | inl q ↦ rw q (
                let m' = (run md m).0 in
                let timings' = insert md.name (m'.clock - m.clock) timings in
                let rest = run_phase-log mds (suc count) timings' m' in
                record {
                  calls = f md ++ rest.calls;
                  logs = Logs-trans (f md) rest.calls (one md m) rest.logs;
                  end = PhaseEnd-cons action ctx run m f md mds count _ rest.calls e q rest.end;
                })
          ])
  ]

pub take-length-append : (xs ys : List Module) → take (length xs) (xs ++ ys) ≡ xs
take-length-append [] ys = refl
take-length-append (x ∷ xs) ys = ap (λ l. x ∷ l) (take-length-append xs ys)
