-- ===== src/Audit/Commitment.antt =====
-- audit_export_service.py: the hash chain commits its last hash to the whole history.
use mathlib.Core.List.{reverse, reverse_aux, reverse-reverse}
use mathlib.Core.Path.{ap₂}
use text.Mathlib.TextLemmas.{append_cancel_left}
use night_ledger.Prelude.{
  String, ◌≡◌, refl, ap, sym, ◌∙◌, All-imp, All-reverse_aux, Option, none, some, List, [], ◌∷◌, All,
  arith, eq_iff,
}
use night_ledger.Schema.{StoredEvent}
use night_ledger.Errors.{ok}
use night_ledger.EventStore.{Digest, HashFields, build_event_hash}
use night_ledger.Audit.{sealed, verify_from, verify_hash_chain}

-- What the hashes of a stream of events cover, in order.
unfoldable pub seals : Option String → List StoredEvent → List HashFields
seals previous_hash [] = []
seals previous_hash (event ∷ events) = sealed previous_hash event ∷ seals (some event.hash) events

-- `previous_hash` after the loop.
abbrev pub head_hash : Option String → List StoredEvent → Option String
head_hash previous_hash [] = previous_hash
head_hash previous_hash (event ∷ events) = head_hash (some event.hash) events

-- No two of the hashed objects at hand have one digest without being the same.
abbrev pub CollisionFree : Digest → List HashFields → List HashFields → Type 0
CollisionFree digest xs ys = All (λ x. All (λ y. digest x ≡ digest y → x ≡ y) ys) xs

-- The newest event stands first.
abbrev newest_hash : List StoredEvent → Option String
newest_hash [] = none
newest_hash (event ∷ older) = some event.hash

seals_back : List StoredEvent → List HashFields
seals_back [] = []
seals_back (event ∷ older) = sealed (newest_hash older) event ∷ seals_back older

abbrev Linked : Digest → List StoredEvent → Type 0
Linked digest [] = Unit
Linked digest (event ∷ older) =
    (event.hash ≡ build_event_hash digest (sealed (newest_hash older) event)) × Linked digest older

build-injective :
    (digest : Digest) (a b : HashFields)
    → build_event_hash digest a ≡ build_event_hash digest b
    → digest a ≡ digest b
unfolding build_event_hash
build-injective digest a b h = append_cancel_left "sha256:" (digest a) (digest b) h

seals_back-eq :
    (digest : Digest) (xs ys : List StoredEvent)
    → Linked digest xs
    → Linked digest ys
    → newest_hash xs ≡ newest_hash ys
    → CollisionFree digest (seals_back xs) (seals_back ys)
    → seals_back xs ≡ seals_back ys
unfolding seals_back sealed
seals_back-eq digest [] [] hx hy e free = refl
seals_back-eq digest [] (y ∷ ys) hx hy e free = cc
seals_back-eq digest (x ∷ xs) [] hx hy e free = cc
seals_back-eq digest (x ∷ xs) (y ∷ ys) hx hy e free =
    let hashes : x.hash ≡ y.hash = cc in
    let same = free.0.0 (build-injective digest _ _ (sym hx.0 ∙ hashes ∙ hy.0)) in
    let older : newest_hash xs ≡ newest_hash ys = ap (λ (f : HashFields). f.prev_hash) same in
    let rest = seals_back-eq digest xs ys hx.1 hy.1 older (
      All-imp _ (λ a. All (λ b. digest a ≡ digest b → a ≡ b) (seals_back ys)) (λ a h. h.1)
        (seals_back xs) free.1) in
    ap₂ ◌∷◌ same rest

verify_from-Linked :
    (digest : Digest) (xs older : List StoredEvent)
    → verify_from digest (newest_hash older) xs ≡ ok tt
    → Linked digest older
    → Linked digest (reverse_aux xs older)
unfolding verify_from
verify_from-Linked digest [] older h k = k
verify_from-Linked digest (x ∷ xs) older h k =
    verify_from-Linked digest xs (x ∷ older) (ground arith)
      (ground (arith, eq_iff x.hash (build_event_hash digest (sealed (newest_hash older) x))), k)

seals_back-reverse_aux :
    (xs older : List StoredEvent)
    → seals_back (reverse_aux xs older)
      ≡ reverse_aux (seals (newest_hash older) xs) (seals_back older)
unfolding seals seals_back
seals_back-reverse_aux [] older = refl
seals_back-reverse_aux (x ∷ xs) older = seals_back-reverse_aux xs (x ∷ older)

newest_hash-reverse_aux :
    (xs older : List StoredEvent)
    → newest_hash (reverse_aux xs older) ≡ head_hash (newest_hash older) xs
newest_hash-reverse_aux [] older = refl
newest_hash-reverse_aux (x ∷ xs) older = newest_hash-reverse_aux xs (x ∷ older)

CollisionFree-reverse :
    (digest : Digest) (ps qs : List HashFields)
    → CollisionFree digest ps qs
    → CollisionFree digest (reverse ps) (reverse qs)
CollisionFree-reverse digest ps qs free =
    All-reverse_aux (λ x. All (λ y. digest x ≡ digest y → x ≡ y) (reverse qs)) ps []
      (All-imp _ _ (λ x h. All-reverse_aux (λ y. digest x ≡ digest y → x ≡ y) qs [] h tt) ps free)
      tt

module _ (digest : Digest) (xs ys : List StoredEvent) where
  -- Two streams that pass the check of the hash chain and end in the same hash have the same
  -- history: as many events, with the same identifiers, runs, timestamps, payloads, warnings and
  -- links, in the same order. The digest must have no collision among the objects hashed.
  pub verify_hash_chain-commits :
      verify_hash_chain digest xs ≡ ok tt
      → verify_hash_chain digest ys ≡ ok tt
      → head_hash none xs ≡ head_hash none ys
      → CollisionFree digest (seals none xs) (seals none ys)
      → seals none xs ≡ seals none ys
  unfolding verify_hash_chain seals_back
  verify_hash_chain-commits hx hy e free =
      let back =
        seals_back-eq digest (reverse xs) (reverse ys) (verify_from-Linked digest xs [] hx tt)
          (verify_from-Linked digest ys [] hy tt)
          (newest_hash-reverse_aux xs [] ∙ e ∙ sym (newest_hash-reverse_aux ys []))
          (rw (seals_back-reverse_aux xs [], seals_back-reverse_aux ys [])
            (CollisionFree-reverse digest (seals none xs) (seals none ys) free)) in
      let mirrored : reverse (seals none xs) ≡ reverse (seals none ys) =
        sym (seals_back-reverse_aux xs []) ∙ back ∙ seals_back-reverse_aux ys [] in
      sym (reverse-reverse (seals none xs)) ∙ ap reverse mirrored ∙ reverse-reverse (seals none ys)
