-- ===== src/Ds/Hash/Reach.antt =====
-- The map laws of kernel/ds/hash.c for the keys that an operation does not name.
use gos_v.Common.{
  ℕ, ◌%◌, ◌<◌, ◌≡◌, ◌≢◌, inl, inr, refl, sym, ◌∙◌, ap, true, false, List, Outcome, ok, panic, hang,
  arith, ◌==◌, Bool-cases, ==→eq, ==→ne, length, get_or, set, get_or-set_self, get_or-set_ne,
  get_or-replicate,
}
use gos_v.Ds.Hash.{
  Value, no_value, HashTable, Kind, Stop, hit, unused, slot, spread, same_key, get, put, new_map,
}
use gos_v.Ds.Hash.Probe.{
  seek-unused, seek-hit, seek-ends, same_key-congr, same_key_refl, seek-congr, seek-insert_other,
  seek-ne-panic,
}
use gos_v.Ds.Hash.Laws.{
  IsMap, IsKey, found, answer, updated, get-found, put-found, found-lt, found-insert, found-update,
  Puts, over, fresh, put-Puts, Puts-IsMap,
}

module _ (strings : ℕ → List ℕ) (kind : Kind) where
  -- Every entry is where the loop for its key leads. `NewMap` and `Put` keep this; `Delete` does not.
  abbrev pub Reaches : List Value → Type 0
  Reaches t =
      (j : ℕ)
      → j < 101
      → (slot t j).available ≡ false
      → found strings kind t (slot t j).key ≡ ok (hit j)

  found-congr :
      (t : List Value) (x y : ℕ)
      → same_key strings kind x y ≡ true
      → found strings kind t x ≡ found strings kind t y
  unfolding found
  found-congr t x y e =
      rw ((same_key-congr strings kind x y 0 e).1)
        (seek-congr strings kind x y e t 101 (spread strings kind y % 101))

  pub found-hit :
      (t : List Value) (key j : ℕ)
      → found strings kind t key ≡ ok (hit j)
      → ((slot t j).available ≡ false) × (same_key strings kind key (slot t j).key ≡ true)
  unfolding found
  found-hit t key j e = seek-hit strings kind t key 101 (spread strings kind key % 101) j e

  found-unused :
      (t : List Value) (key j : ℕ)
      → found strings kind t key ≡ ok (unused j)
      → (slot t j).available ≡ true
  unfolding found
  found-unused t key j e = seek-unused strings kind t key 101 (spread strings kind key % 101) j e

  found-insert_other :
      (t : List Value) (e : Value) (key j f : ℕ)
      → (slot t f).available ≡ true
      → found strings kind t key ≡ ok (hit j)
      → found strings kind (set t f e) key ≡ ok (hit j)
  unfolding found
  found-insert_other t e key j f a h =
      seek-insert_other strings kind t e key 101 (spread strings kind key % 101) j f a h

  found-ends :
      (t : List Value) (key f : ℕ)
      → f < 101
      → (slot t f).available ≡ true
      → found strings kind t key ≢ hang
  unfolding found
  found-ends t key f h a =
      seek-ends strings kind t key 101 (spread strings kind key % 101) f a h (omega arith)
        (ground arith)

  pub found-ne-panic : (t : List Value) (key : ℕ) → found strings kind t key ≢ panic
  unfolding found
  found-ne-panic t key = seek-ne-panic strings kind t key 101 (spread strings kind key % 101)

  insert-Reaches :
      (t : List Value) (key v j : ℕ)
      → length t ≡ 101
      → found strings kind t key ≡ ok (unused j)
      → Reaches t
      → Reaches (set t j (record { key = key; value = v; available = false }))
  unfolding slot
  insert-Reaches t key v j l q r i hi a = elim (Bool-cases (j == i)) [
    | inl e ↦ at_j (==→eq j i e)
    | inr e ↦ elsewhere (get_or-set_ne t j i _ no_value (==→ne j i e))
  ]
    where
      new : Value
      new = record { key = key; value = v; available = false }

      at_j :
          j ≡ i
          → found strings kind (set t j new) (get_or (set t j new) i no_value).key ≡ ok (hit i)
      at_j e =
          rw
            (
              ← e,
              get_or-set_self t j new no_value
                  (omega (arith, found-lt strings kind t key j (inr q))),
            )
            (found-insert strings kind t key v j l q)

      elsewhere :
          get_or (set t j new) i no_value ≡ get_or t i no_value
          → found strings kind (set t j new) (get_or (set t j new) i no_value).key ≡ ok (hit i)
      elsewhere e =
          rw e (found-insert_other t new _ i j (found-unused t key j q) (r i hi (rw e at a)))

  update-Reaches :
      (t : List Value) (v j : ℕ)
      → j < length t
      → Reaches t
      → Reaches (set t j (record (slot t j) { value = v }))
  unfolding slot
  update-Reaches t v j l r i hi a =
      rw (found-update strings kind t _ v j l) (elim (Bool-cases (j == i)) [
        | inl e ↦
            ground (arith, get_or-set_self t j (record (slot t j) { value = v }) no_value l, r i hi)
        | inr e ↦
            ground (arith, get_or-set_ne t j i (record (slot t j) { value = v }) no_value, r i hi)
      ])

  -- `Put` keeps every entry reachable.
  pub put-Reaches :
      (m : HashTable) (key v : ℕ) (m' : HashTable)
      → IsMap kind m
      → IsKey strings kind key
      → put strings m key v ≡ ok m'
      → Reaches m.table
      → Reaches m'.table
  put-Reaches m key v m' w k e r = elim (put-Puts strings kind m key v m' w k e) [
    | over j q p ↦ rw (← p) (
        update-Reaches m.table v j
          (omega (arith, w.sized, found-lt strings kind m.table key j (inl q))) r)
    | fresh j q p ↦ rw (← p) (insert-Reaches m.table key v j w.sized q r)
  ]

  -- A new map has no entry.
  pub new_map-Reaches : (t : List ℕ) → Reaches (new_map t).table
  unfolding new_map slot
  new_map-Reaches t j h a = absurd (ground (arith, get_or-replicate 101 j no_value))

  apart :
      (key key' s : ℕ)
      → same_key strings kind key' key ≡ false
      → same_key strings kind key s ≡ true
      → same_key strings kind key' s ≡ false
  apart key key' s d b = elim (Bool-cases (same_key strings kind key' s)) [
    | inl a ↦ cc (
      (same_key-congr strings kind key' s key a).0,
      (same_key-congr strings kind key s key b).0,
      same_key_refl strings kind key,
    )
    | inr a ↦ a
  ]

  module _ (m : HashTable) (key key' v : ℕ) (w : IsMap kind m)
      (d : same_key strings kind key' key ≡ false) where
    over_other :
        (j : ℕ) (r : Outcome Stop)
        → found strings kind m.table key ≡ ok (hit j)
        → found strings kind m.table key' ≡ r
        → answer strings kind (set m.table j (record (slot m.table j) { value = v })) r
          ≡ answer strings kind m.table r
    unfolding slot
    over_other j (ok (unused i)) q e = refl
    over_other j panic q e = refl
    over_other j hang q e = refl
    over_other j (ok (hit i)) q e = ground (
      arith,
      get_or-set_ne m.table j i (record (slot m.table j) { value = v }) no_value,
      found-hit m.table key j q,
      found-hit m.table key' i e,
      apart key key' (slot m.table j).key d,
    )

    -- An entry that is found after a new one was added was there before, or is the new one.
    fresh_unused :
        (j : ℕ) (e : Value)
        → e.key ≡ key
        → found strings kind m.table key ≡ ok (unused j)
        → Reaches m.table
        → (i : ℕ) → found strings kind m.table key' ≡ ok (unused i)
        → (n : ℕ) → found strings kind (set m.table j e) key' ≢ ok (hit n)
    unfolding slot
    fresh_unused j e k q reach i p n h =
        let lt : j < length m.table =
          omega (arith, w.sized, found-lt strings kind m.table key j (inr q)) in
        let n_lt : n < 101 = found-lt strings kind (set m.table j e) key' n (inl h) in
        let there = found-hit (set m.table j e) key' n h in
        elim (Bool-cases (j == n)) [
          | inl eq ↦ cc (==→eq j n eq, get_or-set_self m.table j e no_value lt, there.1)
          | inr ne ↦
              let same = get_or-set_ne m.table j n e no_value (==→ne j n ne) in
              let was = reach n n_lt (ap (λ x. x.available) (sym same) ∙ there.0) in
              let key_n =
                found-congr m.table key' (get_or m.table n no_value).key
                  (ap (λ x. same_key strings kind key' x.key) (sym same) ∙ there.1) in
              cc (key_n, was, p)
        ]

    fresh_other :
        (j f : ℕ) (r : Outcome Stop) (e : Value)
        → e.key ≡ key
        → found strings kind m.table key ≡ ok (unused j)
        → Reaches m.table
        → f < 101
        → (slot (set m.table j e) f).available ≡ true
        → found strings kind m.table key' ≡ r
        → answer strings kind (set m.table j e) (found strings kind (set m.table j e) key')
          ≡ answer strings kind m.table r
    unfolding slot
    fresh_other j f (ok (hit i)) e k q reach hf free p =
        rw (found-insert_other m.table e key' i j (found-unused m.table key j q) p) (
          ground (
            arith,
            get_or-set_ne m.table j i e no_value,
            found-hit m.table key' i p,
            found-unused m.table key j q,
          ))
    fresh_other j f (ok (unused i)) e k q reach hf free p =
        go (found strings kind (set m.table j e) key') refl
      where
        go :
            (r : Outcome Stop)
            → found strings kind (set m.table j e) key' ≡ r
            → answer strings kind (set m.table j e) r ≡ ok 0
        go (ok (hit n)) h = absurd (fresh_unused j e k q reach i p n h)
        go (ok (unused n)) h = refl
        go panic h = absurd (found-ne-panic (set m.table j e) key' h)
        go hang h = absurd (found-ends (set m.table j e) key' f hf free h)
    fresh_other j f panic e k q reach hf free p = absurd (found-ne-panic m.table key' p)
    fresh_other j f hang e k q reach hf free p = absurd (found-ends m.table key' f hf was_free p)
      where
        was_free : (get_or m.table f no_value).available ≡ true
        was_free =
            ground (arith, get_or-set_ne m.table j f e no_value, found-unused m.table key j q)

  -- In a map of numbers or of strings where the loop for the key of each entry leads to it, and with an
  -- unused slot left, a `Put` that returns changes nothing for the keys that do not match; the hash of
  -- neither key is -1.
  pub get-put_other :
      (m : HashTable) (key key' v f : ℕ) (m' : HashTable)
      → IsMap kind m
      → IsKey strings kind key
      → IsKey strings kind key'
      → same_key strings kind key' key ≡ false
      → Reaches m.table
      → put strings m key v ≡ ok m'
      → f < 101
      → (slot m'.table f).available ≡ true
      → get strings m' key' ≡ get strings m key'
  get-put_other m key key' v f m' w k k' d reach e hf free =
      let p = put-Puts strings kind m key v m' w k e in
      get-found strings kind m' key' (Puts-IsMap strings kind w p) k'
      ∙ same p free
      ∙ sym (get-found strings kind m key' w k')
    where
      same :
          Puts strings kind m key v m'
          → (slot m'.table f).available ≡ true
          → answer strings kind m'.table (found strings kind m'.table key')
            ≡ answer strings kind m.table (found strings kind m.table key')
      same (over j q p) a =
          rw
            (
              ← p,
              found-update strings kind m.table key' v j
                  (omega (arith, w.sized, found-lt strings kind m.table key j (inl q))),
            )
            (over_other m key key' v w d j (found strings kind m.table key') q refl)
      same (fresh j q p) a = rw (← p) (
          fresh_other m key key' v w d j f (found strings kind m.table key') _ refl q reach hf
            (rw (← p) at a) refl)

  -- In a map of numbers or of strings, `Put` of a key whose hash is not -1, the value of a key of an
  -- unknown type, returns when a slot is unused.
  pub put-ok :
      (m : HashTable) (key v f : ℕ)
      → IsMap kind m
      → IsKey strings kind key
      → f < 101
      → (slot m.table f).available ≡ true
      → (m' : HashTable) × (put strings m key v ≡ ok m')
  put-ok m key v f w k hf a = go (found strings kind m.table key) refl
    where
      go :
          (r : Outcome Stop)
          → found strings kind m.table key ≡ r
          → (m' : HashTable) × (put strings m key v ≡ ok m')
      go (ok (hit i)) q =
          (_, put-found strings kind m key v w k ∙ ap (updated strings kind m key v) q)
      go (ok (unused i)) q =
          (_, put-found strings kind m key v w k ∙ ap (updated strings kind m key v) q)
      go panic q = absurd (found-ne-panic m.table key q)
      go hang q = absurd (found-ends m.table key f hf a q)
