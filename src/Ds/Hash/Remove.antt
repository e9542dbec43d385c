-- ===== src/Ds/Hash/Remove.antt =====
-- `Delete` of kernel/ds/hash.c, and the loops on a table with no unused slot.
use gos_v.Common.{
  ℕ, zero, suc, ◌+◌, ◌%◌, ◌<◌, ◌≡◌, refl, sym, ◌∙◌, ap, true, false, List, Outcome, ok, panic, hang,
  arith, length, set, get_or-set_self,
}
use gos_v.Ds.Hash.{
  Value, no_value, HashTable, Kind, Stop, hit, unused, slot, spread, same_key, hash, get, delete,
}
use gos_v.Ds.Hash.Probe.{seek, probe-seek, seek-ne-panic, seek-delete}
use gos_v.Ds.Hash.Laws.{IsMap, IsKey, found, answer, get-found, set-IsMap}

module _ (strings : ℕ → List ℕ) (kind : Kind) where
  abbrev removed : HashTable → Outcome Stop → Outcome HashTable
  removed m r = elim r [
    | ok s ↦ elim s [ hit i ↦ ok (record m { table = set m.table i no_value }) | unused i ↦ ok m ]
    | panic ↦ panic
    | hang ↦ hang
  ]

  delete-found :
      (m : HashTable) (key : ℕ)
      → IsMap kind m
      → IsKey strings kind key
      → delete strings m key ≡ removed m (found strings kind m.table key)
  unfolding delete hash found
  delete-found m key w k = ground (
    arith,
    probe-seek strings kind m key 101 (spread strings kind key % 101) w.made w.typed,
    seek-ne-panic strings kind m.table key 101 (spread strings kind key % 101),
  )

  found-delete :
      (t : List Value) (key j : ℕ)
      → length t ≡ 101
      → found strings kind t key ≡ ok (hit j)
      → found strings kind (set t j no_value) key ≡ ok (unused j)
  unfolding found
  found-delete t key j l e =
      seek-delete strings kind t key 101 (spread strings kind key % 101) j l (omega arith) e

  seek_full :
      (t : List Value) (key n i : ℕ)
      → i < 101
      → ((j : ℕ)
          → j < 101
          → ((slot t j).available ≡ false) × (same_key strings kind key (slot t j).key ≡ false))
      → seek strings kind t key n i ≡ hang
  unfolding seek
  seek_full t key zero i h f = refl
  seek_full t key (suc n) i h f =
      ground (arith, f i h, seek_full t key n ((i + 1) % 101) (omega arith) f)

  found-home :
      (t : List Value) (key : ℕ)
      → (slot t (spread strings kind key % 101)).available ≡ true
      → found strings kind t key ≡ ok (unused (spread strings kind key % 101))
  unfolding found seek
  found-home t key a = ground arith

  -- In a map of numbers or of strings, `Delete` of a key leaves nothing to find for any other key whose
  -- hash is the slot that it frees, whatever `Get` of that other key gave before.
  pub delete_loses :
      (m : HashTable) (key lost : ℕ) (m' : HashTable)
      → IsMap kind m
      → IsKey strings kind key
      → IsKey strings kind lost
      → found strings kind m.table key ≡ ok (hit (spread strings kind lost % 101))
      → delete strings m key ≡ ok m'
      → get strings m' lost ≡ ok 0
  unfolding slot
  delete_loses m key lost m' w k k' q e =
      let j = spread strings kind lost % 101 in
      let p : record m { table = set m.table j no_value } ≡ m' =
        ground (arith, sym (delete-found m key w k) ∙ e) in
      rw (← p) (
        get-found strings kind (record m { table = set m.table j no_value }) lost
          (set-IsMap strings kind m j no_value w) k'
        ∙ ap (answer strings kind (set m.table j no_value)) (
            found-home (set m.table j no_value) lost (
              ap (λ x. x.available)
                (get_or-set_self m.table j no_value no_value (omega (arith, w.sized))))))
