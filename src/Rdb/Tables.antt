-- ===== src/Rdb/Tables.antt =====
-- src/rdb.rs: a table that is collected from its entries, and an entry put into a table.
use rust_redis.Prelude.{
  ◌+◌, ◌≤◌, inl, inr, Bool-cases, length, All, ◌≡◌, refl, sym, ap, ◌∙◌, false, none, [], ◌∷◌, ◌++◌,
  append_assoc, append-nil, Bytes, arith,
}
use rust_redis.Prelude.Keys.{
  Dict, bytes_keys, bytes_eq, bytes_eq_iff, lookup, insert, lookup-insert,
}
use rust_redis.Rdb.{collect}

module _ {ℓ} {V : Type ℓ} where
  -- No key stands twice, as in every HashMap.
  abbrev pub IsTable : Dict Bytes V → Type ℓ
  IsTable [] = Unit
  IsTable ((k, v) ∷ m) = (lookup k m ≡ none) × IsTable m

  absent_later :
      (j k : Bytes) (v : V) (m n : Dict Bytes V)
      → lookup j (m ++ (k, v) ∷ n) ≡ none
      → bytes_eq k j ≡ false
  unfolding lookup
  absent_later j k v [] n e = ground arith
  absent_later j k v ((i, w) ∷ m) n e = ground (arith, absent_later j k v m n)

  insert-fresh :
      (k : Bytes) (v : V) (m n : Dict Bytes V)
      → IsTable (m ++ (k, v) ∷ n)
      → insert k v m ≡ m ++ (k, v) ∷ []
  unfolding insert
  insert-fresh k v [] n t = refl
  insert-fresh k v ((j, w) ∷ m) n t =
      let other : bytes_eq j k ≡ false =
        ground (arith, absent_later j k v m n t.0, bytes_eq_iff j k, bytes_eq_iff k j) in
      rw other (ap (λ r. (j, w) ∷ r) (insert-fresh k v m n t.1))

  collect-onto : (n m : Dict Bytes V) → IsTable (m ++ n) → collect n m ≡ m ++ n
  unfolding collect
  collect-onto [] m t = sym (append-nil m)
  collect-onto ((k, v) ∷ n) m t =
      let shape : (m ++ (k, v) ∷ []) ++ n ≡ m ++ (k, v) ∷ n = append_assoc m ((k, v) ∷ []) n in
      rw (insert-fresh k v m n t) (collect-onto n (m ++ (k, v) ∷ []) (rw shape t) ∙ shape)

  -- The entries of a table give the table.
  pub collect-IsTable : (m : Dict Bytes V) → IsTable m → collect m [] ≡ m
  collect-IsTable m t = collect-onto m [] t

  pub insert-IsTable : (k : Bytes) (v : V) (m : Dict Bytes V) → IsTable m → IsTable (insert k v m)
  unfolding insert lookup
  insert-IsTable k v [] t = (refl, tt)
  insert-IsTable k v ((j, w) ∷ m) t = elim (Bool-cases (bytes_eq j k)) [
    | inl same ↦ rw same ((rw (let e : j ≡ k = ground (arith, bytes_eq_iff j k) in e) at t.0, t.1))
    | inr other ↦
        let back : bytes_eq k j ≡ false = ground (arith, bytes_eq_iff j k, bytes_eq_iff k j) in
        rw other (rw (lookup-insert k j v m, back) t.0, insert-IsTable k v m t.1)
  ]

  pub length-insert : (k : Bytes) (v : V) (m : Dict Bytes V) → length (insert k v m) ≤ length m + 1
  unfolding insert
  length-insert k v [] = omega arith
  length-insert k v ((j, w) ∷ m) = ground (arith, length-insert k v m)

  pub All-insert {κ} :
      (P : Bytes × V → Type κ) (k : Bytes) (v : V) (m : Dict Bytes V)
      → P (k, v)
      → All P m
      → All P (insert k v m)
  unfolding insert
  All-insert P k v [] p a = (p, tt)
  All-insert P k v ((j, w) ∷ m) p a = elim (Bool-cases (bytes_eq j k)) [
    | inl same ↦ rw same (p, a.1)
    | inr other ↦ rw other (a.0, All-insert P k v m p a.1)
  ]
