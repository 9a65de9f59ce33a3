-- ===== src/Approval/Storing.antt =====
-- The file store of the approval broker (approval/store.go: Save, Load). The JSON codec of Go and the
-- hash of tokens are parameters, and what the operating system answers is given to each call.
use modulex.Prelude.{
  ℕ, String, ◌≡◌, refl, sym, ◌∙◌, ap, Bool, true, false, Option, none, some, List, [], ◌∷◌, ◌==◌,
  inl, inr, ◌≢◌, Option-cases, arith, All, Assoc, lookup, insert, lookup-insert, Bool-cases,
  eq_of_test, test_self, subst,
}
use modulex.Approval.{Scope, Grant, Broker, new_broker}
use modulex.Approval.Decisions.{KeysOnce}

-- approval.storedGrant
pub record StoredGrant : Type 0 where
  pub token : String
  pub scope : Scope
  pub approved_by : String
  pub approved_at : ℕ
  pub expires_at : ℕ
  pub used : Bool

abbrev pub store_grant : Grant → StoredGrant
store_grant g = record {
  token = g.token;
  scope = g.scope;
  approved_by = g.approved_by;
  approved_at = g.approved_at;
  expires_at = g.expires_at;
  used = g.used;
}

-- The loop of Save over the grants.
abbrev pub stored_grants : Assoc Grant → List StoredGrant
stored_grants [] = []
stored_grants ((t, g) ∷ m) = store_grant g ∷ stored_grants m

-- The file of the store and the one beside it, as far as they exist.
pub record Files : Type 0 where
  pub file : Option String
  pub tmp : Option String

-- How the calls of the operating system end; a failed write leaves something in the file beside.
pub record Disk : Type 0 where
  pub mkdir_err : Option String
  pub write_err : Option String
  pub partial : Option String
  pub rename_err : Option String
  pub read_err : Option String

pub data StoreError : Type 0 where
  marshaling parsing : StoreError
  creating writing renaming reading : String → StoreError

module _ (marshal : List StoredGrant → Option String)
    (unmarshal : String → Option (List StoredGrant)) (hash_token : String → String) where
  -- FileStore.Save
  unfoldable pub save : Disk → Broker → Files → Files × Option StoreError
  save d b fs = elim (marshal (stored_grants b.grants)) [
    | none ↦ (fs, some StoreError.marshaling)
    | some text ↦ elim d.mkdir_err [
      | some e ↦ (fs, some (StoreError.creating e))
      | none ↦ elim d.write_err [
        | some e ↦ (record fs { tmp = d.partial }, some (StoreError.writing e))
        | none ↦ elim d.rename_err [
          | some e ↦ (record fs { tmp = some text }, some (StoreError.renaming e))
          | none ↦ (record { file = some text; tmp = none }, none)
        ]
      ]
    ]
  ]

  abbrev pub load_grant : StoredGrant → Grant
  load_grant g = record {
    token = g.token;
    token_hash = hash_token g.token;
    scope = g.scope;
    approved_by = g.approved_by;
    approved_at = g.approved_at;
    expires_at = g.expires_at;
    used = g.used;
  }

  -- The loop of Load.
  abbrev pub load_grants : List StoredGrant → Assoc Grant → Assoc Grant
  load_grants [] m = m
  load_grants (g ∷ gs) m = load_grants gs (insert g.token (load_grant g) m)

  abbrev pub broker_of : Option (List StoredGrant) → Option Broker × Option StoreError
  broker_of none = (none, some StoreError.parsing)
  broker_of (some gs) = (some (record { grants = load_grants gs [] }), none)

  -- FileStore.Load
  unfoldable pub load : Disk → Files → Option Broker × Option StoreError
  unfolding new_broker
  load d fs = elim fs.file [
    | none ↦ (some new_broker, none)
    | some text ↦ elim d.read_err [
      | some e ↦ (none, some (StoreError.reading e))
      | none ↦ broker_of (unmarshal text)
    ]
  ]

  -- The broker files each grant under its token, with the hash of it.
  abbrev pub IsHashed : Assoc Grant → Type 0
  IsHashed m = All (λ e. (e.1.token ≡ e.0) × (e.1.token_hash ≡ hash_token e.1.token)) m

  abbrev or_else : Option Grant → Option Grant → Option Grant
  or_else none o = o
  or_else (some g) o = some g

  loads_back : (g : Grant) → g.token_hash ≡ hash_token g.token → load_grant (store_grant g) ≡ g
  loads_back g e = ap (λ x. record g { token_hash = x }) (sym e)

  lookup-load_grants :
      (t : String) (m acc : Assoc Grant)
      → KeysOnce m
      → IsHashed m
      → lookup t (load_grants (stored_grants m) acc) ≡ or_else (lookup t m) (lookup t acc)
  lookup-load_grants t [] acc once h = refl
  lookup-load_grants t ((k, g) ∷ m) acc once h =
      let next = insert g.token (load_grant (store_grant g)) acc in
      let rest = lookup-load_grants t m next once.1 h.1 in
      let got = lookup-insert g.token t (load_grant (store_grant g)) acc in
      let same = loads_back g h.0.1 in
      elim (Bool-cases (k == t)) [
        | inl e ↦
            let gone = subst (λ n. lookup n m ≡ none) (eq_of_test k t e) once.0 in
            let own = test_of_same g.token t (h.0.0 ∙ eq_of_test k t e) in
            ground (arith, rest, got, same, gone, own)
        | inr e ↦
            let other = subst (λ n. (n == t) ≡ false) (sym h.0.0) e in
            ground (arith, rest, got, other)
      ]
    where
      test_of_same : (a b : String) → a ≡ b → (a == b) ≡ true
      test_of_same a b e = rw e (test_self b)

  -- What Load finds for a token in what Save wrote.
  abbrev pub found : String → Option Broker × Option StoreError → Option Grant
  found t (none, e) = none
  found t (some b, e) = lookup t b.grants

  written :
      (d : Disk) (b : Broker) (fs : Files) (text : String)
      → marshal (stored_grants b.grants) ≡ some text
      → (save d b fs).1 ≡ none
      → (save d b fs).0.file ≡ some text
  unfolding save
  written d b fs text e ok = ground arith

  not_written :
      (d : Disk) (b : Broker) (fs : Files)
      → marshal (stored_grants b.grants) ≡ none
      → (save d b fs).1 ≢ none
  unfolding save
  not_written d b fs e ok = ground arith

  load-eq :
      (d : Disk) (fs : Files) (text : String) (gs : List StoredGrant)
      → fs.file ≡ some text
      → d.read_err ≡ none
      → unmarshal text ≡ some gs
      → load d fs ≡ (some (record { grants = load_grants gs [] }), none)
  unfolding load
  load-eq d fs text gs e readable u = rw (e, readable, u, load) refl

  -- A failed Save leaves the file of the store as it was, whichever call failed, so that Load never sees
  -- a part of it.
  pub save_error_unchanged :
      (d : Disk) (b : Broker) (fs : Files) {e : StoreError}
      → (save d b fs).1 ≡ some e
      → (save d b fs).0.file ≡ fs.file
  unfolding save
  save_error_unchanged d b fs h = ground arith

  -- After a Save that succeeds, Load succeeds whenever the file can be read, and the loaded broker has
  -- the same grant, used or not, for every token: provided that the codec reads back what it writes of
  -- these grants, and that the broker files each grant once, under its token and with the hash of it.
  pub load-save :
      (d d' : Disk) (b : Broker) (fs : Files)
      → ((text : String)
          → marshal (stored_grants b.grants) ≡ some text
          → unmarshal text ≡ some (stored_grants b.grants))
      → KeysOnce b.grants
      → IsHashed b.grants
      → d'.read_err ≡ none
      → (save d b fs).1 ≡ none
      → ((load d' (save d b fs).0).1 ≡ none)
        × ((t : String) → found t (load d' (save d b fs).0) ≡ lookup t b.grants)
  load-save d d' b fs codec once h readable ok =
      elim (Option-cases (marshal (stored_grants b.grants))) [
        | inl e ↦ absurd (not_written d b fs e ok)
        | inr (text, e) ↦
            let q =
              load-eq d' (save d b fs).0 text (stored_grants b.grants) (written d b fs text e ok)
                readable (codec text e) in
            (
              ap (λ r. r.1) q,
              λ t.
                  ap (found t) q
                  ∙ (lookup-load_grants t b.grants [] once h ∙ or_none (lookup t b.grants)),
            )
      ]
    where
      or_none : (o : Option Grant) → or_else o none ≡ o
      or_none none = refl
      or_none (some g) = refl
