-- ===== src/Ds/Hash/Laws.antt =====
-- The map laws of kernel/ds/hash.c.
use gos_v.Common.{
  ℕ, ◌-◌, ◌%◌, ◌^◌, ◌<◌, ◌≡◌, ◌≢◌, ◌⊎◌, inl, inr, refl, sym, ◌∙◌, true, false, some, List, Outcome,
  ok, panic, hang, arith, length, set, get_or-set_self, length-set,
}
use gos_v.Ds.Hash.{
  Value, no_value, HashTable, Kind, kind_of, Stop, hit, unused, slot, spread, hash, get, put,
}
use gos_v.Ds.Hash.Probe.{seek, probe-seek, seek-lt, seek-insert, seek-update, seek-ne-panic}

-- A map of the kind, as `NewMap` makes it and the operations leave it.
pub record IsMap (kind : Kind) (m : HashTable) : Type 0 where
  pub made : m.initialized ≡ true
  pub typed : kind_of m.key_type ≡ some kind
  pub sized : length m.table ≡ 101

module _ (strings : ℕ → List ℕ) (kind : Kind) where
  -- Where the loop for a key stops.
  unfoldable pub found : List Value → ℕ → Outcome Stop
  found t key = seek strings kind t key 101 (spread strings kind key % 101)

  abbrev pub answer : List Value → Outcome Stop → Outcome ℕ
  answer t r = elim r [
    | ok s ↦ elim s [ hit i ↦ ok (slot t i).value | unused i ↦ ok 0 ]
    | panic ↦ panic
    | hang ↦ hang
  ]

  -- `hash` has not taken the key for one of an unknown type.
  abbrev pub IsKey : ℕ → Type 0
  IsKey key = spread strings kind key ≢ 2 ^ 32 - 1

  pub get-found :
      (m : HashTable) (key : ℕ)
      → IsMap kind m
      → IsKey key
      → get strings m key ≡ answer m.table (found m.table key)
  unfolding get hash found
  get-found m key v k = ground (
    arith,
    probe-seek strings kind m key 101 (spread strings kind key % 101) v.made v.typed,
    seek-ne-panic strings kind m.table key 101 (spread strings kind key % 101),
  )

  abbrev pub updated : HashTable → ℕ → ℕ → Outcome Stop → Outcome HashTable
  updated m key v r = elim r [
    | ok s ↦ elim s [
      | hit i ↦ ok (record m { table = set m.table i (record (slot m.table i) { value = v }) })
      | unused i ↦
          ok (record m {
            table = set m.table i (record { key = key; value = v; available = false });
          })
    ]
    | panic ↦ panic
    | hang ↦ hang
  ]

  pub put-found :
      (m : HashTable) (key v : ℕ)
      → IsMap kind m
      → IsKey key
      → put strings m key v ≡ updated m key v (found m.table key)
  unfolding put hash found
  put-found m key v w k = ground (
    arith,
    probe-seek strings kind m key 101 (spread strings kind key % 101) w.made w.typed,
    seek-ne-panic strings kind m.table key 101 (spread strings kind key % 101),
  )

  pub found-lt :
      (t : List Value) (key j : ℕ)
      → (found t key ≡ ok (hit j)) ⊎ (found t key ≡ ok (unused j))
      → j < 101
  unfolding found
  found-lt t key j e =
      seek-lt strings kind t key 101 (spread strings kind key % 101) j (omega arith) e

  pub found-insert :
      (t : List Value) (key v j : ℕ)
      → length t ≡ 101
      → found t key ≡ ok (unused j)
      → found (set t j (record { key = key; value = v; available = false })) key ≡ ok (hit j)
  unfolding found
  found-insert t key v j l e =
      seek-insert strings kind t (record { key = key; value = v; available = false }) 101
        (spread strings kind key % 101) j l refl (omega arith) e

  pub found-update :
      (t : List Value) (key v j : ℕ)
      → j < length t
      → found (set t j (record (slot t j) { value = v })) key ≡ found t key
  unfolding found
  found-update t key v j l =
      seek-update strings kind t (record (slot t j) { value = v }) key 101
        (spread strings kind key % 101) j l refl refl

  -- How a `Put` that returns went: over the entry of the key, or into an unused slot.
  pub data Puts (m : HashTable) (key v : ℕ) : HashTable → Type 0 where
    over :
        (j : ℕ) {m' : HashTable}
        → found m.table key ≡ ok (hit j)
        → record m { table = set m.table j (record (slot m.table j) { value = v }) } ≡ m'
        → Puts m key v m'
    fresh :
        (j : ℕ) {m' : HashTable}
        → found m.table key ≡ ok (unused j)
        → record m { table = set m.table j (record { key = key; value = v; available = false }) }
          ≡ m'
        → Puts m key v m'

  pub put_case :
      (m : HashTable) (key v : ℕ) (m' : HashTable) (r : Outcome Stop)
      → found m.table key ≡ r
      → updated m key v r ≡ ok m'
      → Puts m key v m'
  put_case m key v m' (ok (hit j)) q e = over j q (cc)
  put_case m key v m' (ok (unused j)) q e = fresh j q (cc)
  put_case m key v m' panic q e = cc
  put_case m key v m' hang q e = cc

  pub put-Puts :
      (m : HashTable) (key v : ℕ) (m' : HashTable)
      → IsMap kind m
      → IsKey key
      → put strings m key v ≡ ok m'
      → Puts m key v m'
  put-Puts m key v m' w k e =
      put_case m key v m' (found m.table key) refl (sym (put-found m key v w k) ∙ e)

  pub set-IsMap :
      (m : HashTable) (j : ℕ) (e : Value)
      → IsMap kind m
      → IsMap kind (record m { table = set m.table j e })
  set-IsMap m j e w = record {
    made = w.made;
    typed = w.typed;
    sized = length-set m.table j e ∙ w.sized;
  }

  pub Puts-IsMap :
      {m : HashTable} {key v : ℕ} {m' : HashTable} → IsMap kind m → Puts m key v m' → IsMap kind m'
  Puts-IsMap {m} w (over j q e) = rw (← e) (set-IsMap m j _ w)
  Puts-IsMap {m} w (fresh j q e) = rw (← e) (set-IsMap m j _ w)

  pub Puts-found :
      {m : HashTable} {key v : ℕ} {m' : HashTable}
      → IsMap kind m
      → Puts m key v m'
      → answer m'.table (found m'.table key) ≡ ok v
  unfolding slot
  Puts-found {m} {key} {v} w (over j q e) =
      let lt : j < length m.table = omega (arith, w.sized, found-lt m.table key j (inl q)) in
      rw (← e, found-update m.table key v j lt, q, get_or-set_self m.table j _ no_value lt)
  Puts-found {m} {key} {v} w (fresh j q e) =
      let lt : j < length m.table = omega (arith, w.sized, found-lt m.table key j (inr q)) in
      rw (← e, found-insert m.table key v j w.sized q, get_or-set_self m.table j _ no_value lt)

  -- In a map of numbers or of strings, after `Put` of a key whose hash is not -1 returns, `Get` of the
  -- key gives the value that was put.
  pub get-put_self :
      (m : HashTable) (key v : ℕ) (m' : HashTable)
      → IsMap kind m
      → IsKey key
      → put strings m key v ≡ ok m'
      → get strings m' key ≡ ok v
  get-put_self m key v m' w k e =
      let p = put-Puts m key v m' w k e in get-found m' key (Puts-IsMap w p) k ∙ Puts-found w p
