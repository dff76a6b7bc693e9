-- ===== src/WalletDatabase/Laws.antt =====
-- A store that works, and what its tables hold after an insertion or a removal.
use factom.Base.{
  bytes_eq_refl, ◌≡◌, inl, inr, false, ◌&&◌, Option, none, some, Bytes, bytes_eq, if◌then◌else◌,
  Result, ok, ◌>>=◌, Bool-cases,
}
use mathlib.Core.Path.{fun_ext}
use factom.WalletDatabase.{Overlay}
use factom.WalletDatabase.Vault.{set_at}

-- What a key-value store documents: a read finds what was put last under the key, unless it was
-- deleted. `contents` is what the store holds.
pub record IsReliable (store : Overlay) (contents : store.DB → Bytes → Bytes → Option Bytes)
    : Type 0 where
  pub get-contents : (db : store.DB) (b k : Bytes) → store.get db b k ≡ ok (contents db b k)
  pub put-ok : (db : store.DB) (b k x : Bytes) → (store.put db b k x).0 ≡ ok tt
  pub contents-put :
      (db : store.DB) (b k x b1 j : Bytes)
      → contents (store.put db b k x).1 b1 j
        ≡ (if bytes_eq b b1 && bytes_eq k j then some x else contents db b1 j)
  pub delete-ok : (db : store.DB) (b k : Bytes) → (store.delete db b k).0 ≡ ok tt
  pub contents-delete :
      (db : store.DB) (b k b1 j : Bytes)
      → contents (store.delete db b k).1 b1 j
        ≡ (if bytes_eq b b1 && bytes_eq k j then none else contents db b1 j)

-- What a read makes of the bytes that a key has, or has not.
unfoldable pub read_at : {A : Type 0} → (Bytes → Result A) → Option Bytes → Result (Option A)
read_at unmarshal none = ok none
read_at unmarshal (some b) = unmarshal b >>= λ a. ok (some a)

-- The second deletion of a key.
pub set_at-twice :
    {A : Type 0} (k : Bytes) (f : Bytes → Option A)
    → set_at k none (set_at k none f) ≡ set_at k none f
unfolding set_at
set_at-twice k f =
    fun_ext (λ j. elim (Bool-cases (bytes_eq k j)) [ inl same ↦ rw same | inr other ↦ rw other ])

module _ {store : Overlay} {contents : store.DB → Bytes → Bytes → Option Bytes}
    (laws : IsReliable store contents) {A : Type 0} (unmarshal : Bytes → Result A) where
  -- A bucket reads as a table.
  abbrev pub IsTable : Bytes → (Bytes → Option A) → store.DB → Type 0
  IsTable b f db = (j : Bytes) → read_at unmarshal (contents db b j) ≡ ok (f j)

  pub put-IsTable :
      (b : Bytes) {f : Bytes → Option A} (db : store.DB) (k x : Bytes) {a : A}
      → IsTable b f db
      → unmarshal x ≡ ok a
      → IsTable b (set_at k (some a) f) (store.put db b k x).1
  unfolding set_at read_at
  put-IsTable b {f} db k x table reads j = elim (Bool-cases (bytes_eq k j)) [
    | inl same ↦ rw (laws.contents-put db b k x b j, bytes_eq_refl b, same, reads)
    | inr other ↦ rw (laws.contents-put db b k x b j, bytes_eq_refl b, other, table j)
  ]

  pub put_elsewhere-IsTable :
      (b : Bytes) {f : Bytes → Option A} (db : store.DB) (b1 k x : Bytes)
      → bytes_eq b1 b ≡ false
      → IsTable b f db
      → IsTable b f (store.put db b1 k x).1
  put_elsewhere-IsTable b {f} db b1 k x elsewhere table j =
      rw (laws.contents-put db b1 k x b j, elsewhere, table j)

  pub delete-IsTable :
      (b : Bytes) {f : Bytes → Option A} (db : store.DB) (k : Bytes)
      → IsTable b f db
      → IsTable b (set_at k none f) (store.delete db b k).1
  unfolding set_at read_at
  delete-IsTable b {f} db k table j = elim (Bool-cases (bytes_eq k j)) [
    | inl same ↦ rw (laws.contents-delete db b k b j, bytes_eq_refl b, same)
    | inr other ↦ rw (laws.contents-delete db b k b j, bytes_eq_refl b, other, table j)
  ]

  pub delete_elsewhere-IsTable :
      (b : Bytes) {f : Bytes → Option A} (db : store.DB) (b1 k : Bytes)
      → bytes_eq b1 b ≡ false
      → IsTable b f db
      → IsTable b f (store.delete db b1 k).1
  delete_elsewhere-IsTable b {f} db b1 k elsewhere table j =
      rw (laws.contents-delete db b1 k b j, elsewhere, table j)
