-- ===== src/Discovery/Closure/Proven.antt =====
-- internal/discovery/closure.go: what a proven read rests on.
use mathlib.Core.Path.{subst}
use tf_mut.Prelude.{
  ℕ, zero, suc, ◌≡◌, refl, sym, ap, inl, inr, Bool, true, false, not, ◌&&◌, List, [], ◌∷◌, arith,
  if◌then◌else◌, Bool-cases,
}
use tf_mut.Text.{Text, contains}
use tf_mut.Dict.{Dict}
use tf_mut.Discovery.Reach.{Ref, Assertion, Reach}
use tf_mut.Discovery.Closure.{
  overlaps, normalise_address, expansions_for, conclusion, weaken, reach_each, reach, count_refs,
  verdict_of, reads_from, reads, Closure,
}

-- The reference is one of the list.
pub data Among (r : Ref) : List Ref → Type 0 where
  first : {rest : List Ref} → Among r (r ∷ rest)
  later : {other : Ref} {rest : List Ref} → Among r rest → Among r (other ∷ rest)

-- A chain of precise references, each in the expansion of the one before, to one whose address
-- overlaps the target.
pub data Chain (expansions : Dict (List Ref)) (target : Text) : Ref → Type 0 where
  overlapping :
      {r : Ref} → r.precise ≡ true → overlaps r.address target ≡ true → Chain expansions target r
  expanding :
      {r next : Ref}
      → r.precise ≡ true
      → Among next (expansions_for expansions r.address)
      → Chain expansions target next
      → Chain expansions target r

Chain-precise :
    {expansions : Dict (List Ref)} {target : Text} {r : Ref}
    → Chain expansions target r
    → r.precise ≡ true
Chain-precise (overlapping p o) = p
Chain-precise (expanding p a c) = p

module _ (expansions : Dict (List Ref)) (target : Text) where
  weaken-Chain :
      (from expansion : Ref)
      → Among expansion (expansions_for expansions from.address)
      → Chain expansions target (weaken from expansion)
      → Chain expansions target from
  weaken-Chain from expansion among chain = elim (Bool-cases from.precise) [
    | inl p ↦ expanding {next = expansion} p among (
        subst (Chain expansions target)
          (ap
            (λ b.
              if not b
              then record expansion { precise = false; construct = from.construct }
              else expansion)
            p)
          chain)
    | inr p ↦ ground (arith, p, Chain-precise chain)
  ]

  -- A walk that reads only along chains.
  Sound : (Ref → List Text → Reach × List Text) → Type 0
  Sound walk =
      (r : Ref) (seen : List Text) → (walk r seen).0.read ≡ true → Chain expansions target r

  reach_each-Chain :
      (walk : Ref → List Text → Reach × List Text)
      → Sound walk
      → (from : Ref) (refs : List Ref)
      → ((r : Ref) → Among r refs → Among r (expansions_for expansions from.address))
      → (result : Reach) → result.read ≡ false
      → (seen : List Text) → (reach_each walk from refs result seen).0.read ≡ true
      → Chain expansions target from
  unfolding reach_each Sound
  reach_each-Chain walk sound from [] within result unread seen e = ground (arith, e, unread)
  reach_each-Chain walk sound from (r ∷ rest) within result unread seen e =
      elim (Bool-cases (walk (weaken from r) seen).0.read) [
        | inl v ↦ weaken-Chain from r (within r first) (sound (weaken from r) seen v)
        | inr v ↦
            reach_each-Chain walk sound from rest (λ s a. within s (later a))
              (if (walk (weaken from r) seen).0.defeated
                then (walk (weaken from r) seen).0
                else result)
              (ground (arith, v, unread)) (walk (weaken from r) seen).1 (ground (arith, e, v))
      ]

  reach-Chain : (fuel : ℕ) → Sound (reach fuel expansions target)
  unfolding reach Sound
  reach-Chain zero r seen e = ground (arith, e)
  reach-Chain (suc fuel) r seen e = elim (Bool-cases (contains r.address seen)) [
    | inl c ↦ ground (arith, e, c)
    | inr c ↦ elim (Bool-cases (overlaps r.address target)) [
      | inl o ↦ overlapping (ground (arith, e, c, o)) o
      | inr o ↦
          reach_each-Chain (reach fuel expansions target) (reach-Chain fuel) r
            (expansions_for expansions r.address) (λ s a. a) (conclusion false false []) refl
            (r.address ∷ seen) (ground (arith, e, c, o))
    ]
  ]

-- One of a list of assertions.
pub data Asserted (a : Assertion) : List Assertion → Type 0 where
  here : {rest : List Assertion} → Asserted a (a ∷ rest)
  there : {other : Assertion} {rest : List Assertion} → Asserted a rest → Asserted a (other ∷ rest)

-- What proves that an assertion of the suite reads an address.
pub record ProvenRead (c : Closure) (target : Text) (assertion : Assertion) : Type 0 where
  listed : Asserted assertion c.assertions
  chain : Chain c.expansions target assertion.ref

-- A conclusion whose read, if it has one, is proven.
Good : Closure → Text → Reach → Type 0
Good c target r = r.read ≡ true → ProvenRead c target r.assertion

reads_from-Good :
    (c : Closure) (target : Text) (assertions : List Assertion)
    → ((a : Assertion) → Asserted a assertions → Asserted a c.assertions)
    → (defeated : Reach) → defeated.read ≡ false
    → Good c target (reads_from c target assertions defeated)
unfolding reads_from Good Sound
reads_from-Good c target [] within defeated unread = λ e. ground (arith, e, unread)
reads_from-Good c target (a ∷ rest) within defeated unread =
    let verdict : Reach = record (verdict_of c target a) { assertion = a } in
    let next : Reach = if verdict.defeated && not defeated.defeated then verdict else defeated in
    let after : Bool → Reach =
      λ b. elim b [ true ↦ verdict | false ↦ reads_from c target rest next ] in
    elim (Bool-cases verdict.read) [
      | inl v ↦
          subst (λ b. Good c target (after b)) (sym v)
            (λ e. record {
              listed = within a here;
              chain =
                  reach-Chain c.expansions target (suc (suc (count_refs c.expansions))) a.ref [] v;
            })
      | inr v ↦
          subst (λ b. Good c target (after b)) (sym v)
            (reads_from-Good c target rest (λ b among. within b (there among)) next
              (ground (arith, v, unread)))
    ]

-- When the closure concludes that an address is read, the assertion it names is one of the suite's, and a chain of precise references leads from that assertion's reference, each in the expansion of the one before, to an address that overlaps the one asked for without its instance keys.
pub reads-ProvenRead :
    (c : Closure) (address : Text)
    → (reads c address).read ≡ true
    → ProvenRead c (normalise_address address) (reads c address).assertion
unfolding reads Good
reads-ProvenRead c address e =
    reads_from-Good c (normalise_address address) c.assertions (λ a among. among)
      (conclusion false false []) refl e
