-- ===== src/Memory/Laws.antt =====
-- The etcd in memory is an etcd.
use gokube.Prelude.{
  ◌∙◌, All-of_Elem, All-Elem, Text, text_eq, text_eq_iff, starts_with, Bool, true, false, ◌≡◌, ◌≢◌,
  refl, sym, ◌⊎◌, inl, inr, List, [], ◌∷◌, none, some, if◌then◌else◌, arith, Elem, Bool-cases,
}
use gokube.Storage.{Distinct}
use gokube.Storage.Etcd.{IsEtcd, pair_of}
use gokube.Memory.{Object, Table, cell, without, without_prefix, remove_key, keys, memory}

pub cell-without :
    (key j : Text) (s : Table) → cell (without key s) j ≡ (if text_eq key j then none else cell s j)
unfolding cell without
cell-without key j [] = ground arith
cell-without key j ((k, o) ∷ rest) =
    ground (arith, cell-without key j rest, text_eq_iff key k, text_eq_iff k j, text_eq_iff key j)

pub cell-put :
    (key j : Text) (o : Object) (s : Table)
    → cell ((key, o) ∷ without key s) j ≡ (if text_eq key j then some o else cell s j)
unfolding cell
cell-put key j o s = ground (arith, cell-without key j s)

pub cell-without_prefix :
    (p j : Text) (s : Table)
    → cell (without_prefix p s) j ≡ (if starts_with p j then none else cell s j)
unfolding cell without_prefix
cell-without_prefix p j [] = ground arith
cell-without_prefix p j ((k, o) ∷ rest) = elim (Bool-cases (text_eq k j)) [
  | inl t ↦
      let e : k ≡ j = (text_eq_iff k j).0 t in ground (arith, cell-without_prefix p j rest, e, t)
  | inr f ↦ ground (arith, cell-without_prefix p j rest, f)
]

Elem-remove_key : (key j : Text) (ks : List Text) → Elem j ks → key ≢ j → Elem j (remove_key key ks)
unfolding remove_key
Elem-remove_key key j [] m ne = m
Elem-remove_key key j (k ∷ ks) m ne = elim (Bool-cases (text_eq key k)) [
  | inl t ↦ rw (t) (elim m [
    | inl e ↦ absurd (ne ((text_eq_iff key k).0 t ∙ sym e))
    | inr rest ↦ Elem-remove_key key j ks rest ne
  ])
  | inr f ↦ rw (f) (elim m [ inl e ↦ inl e | inr rest ↦ inr (Elem-remove_key key j ks rest ne) ])
]

Elem-of_remove_key :
    (key j : Text) (ks : List Text) → Elem j (remove_key key ks) → Elem j ks × (key ≢ j)
unfolding remove_key
Elem-of_remove_key key j [] m = absurd m
Elem-of_remove_key key j (k ∷ ks) m = elim (Bool-cases (text_eq key k)) [
  | inl t ↦ let (rest, ne) = Elem-of_remove_key key j ks (rw t at m) in (inr rest, ne)
  | inr f ↦ elim (rw f at m) [
    | inl e ↦ (inl e, λ x. clash (sym ((text_eq_iff key k).1 (x ∙ e)) ∙ f))
    | inr m' ↦ let (rest, ne) = Elem-of_remove_key key j ks m' in (inr rest, ne)
  ]
]
  where
    clash : true ≡ false → ⊥
    clash x = cc

remove_key-Distinct : (key : Text) (ks : List Text) → Distinct ks → Distinct (remove_key key ks)
unfolding remove_key
remove_key-Distinct key [] d = d
remove_key-Distinct key (k ∷ ks) d = elim (Bool-cases (text_eq key k)) [
  | inl t ↦ rw t (remove_key-Distinct key ks d.1)
  | inr f ↦ rw f (
    All-of_Elem (λ j. k ≢ j) (remove_key key ks)
        (λ j m. All-Elem (λ i. k ≢ i) ks d.0 (Elem-of_remove_key key j ks m).0),
    remove_key-Distinct key ks d.1,
  )
]

pub keys-Distinct : (p : Text) (s : Table) → Distinct (keys s p)
unfolding keys
keys-Distinct p [] = tt
keys-Distinct p ((k, o) ∷ rest) = elim (Bool-cases (starts_with p k)) [
  | inl t ↦ rw t (
    All-of_Elem (λ j. k ≢ j) (remove_key k (keys rest p))
        (λ j m. (Elem-of_remove_key k j (keys rest p) m).1),
    remove_key-Distinct k (keys rest p) (keys-Distinct p rest),
  )
  | inr f ↦ rw f (remove_key-Distinct k (keys rest p) (keys-Distinct p rest))
]

pub listed-is_stored :
    (p : Text) (s : Table) (k : Text)
    → Elem k (keys s p)
    → (starts_with p k ≡ true) × (o : Object) × (cell s k ≡ some o)
unfolding keys cell
listed-is_stored p [] k m = absurd m
listed-is_stored p ((j, o) ∷ rest) k m = elim (Bool-cases (starts_with p j)) [
  | inl t ↦ elim (rw t at m) [
    | inl e ↦ (rw e t, o, rw ((text_eq_iff j k).1 (sym e)) refl)
    | inr m' ↦ later (listed-is_stored p rest k) m'
  ]
  | inr f ↦ later (listed-is_stored p rest k) (rw f at m)
]
  where
    later :
        (Elem k (keys rest p) → (starts_with p k ≡ true) × (o' : Object) × (cell rest k ≡ some o'))
        → Elem k (remove_key j (keys rest p))
        → (starts_with p k ≡ true) × (o' : Object) × (cell ((j, o) ∷ rest) k ≡ some o')
    later ih m' =
        let (in_rest, ne) = Elem-of_remove_key j k (keys rest p) m' in
        let (sw, o', e) = ih in_rest in (sw, o', ground (arith, e, text_eq_iff j k))

pub stored-is_listed :
    (p : Text) (s : Table) (k : Text) (o : Object)
    → starts_with p k ≡ true
    → cell s k ≡ some o
    → Elem k (keys s p)
unfolding keys cell
stored-is_listed p [] k o sw e = absurd (missing e)
  where
    missing : none ≡ some o → ⊥
    missing x = cc
stored-is_listed p ((j, o') ∷ rest) k o sw e = elim (Bool-cases (text_eq j k)) [
  | inl t ↦ rw ((text_eq_iff j k).0 t, sw) (inl refl)
  | inr f ↦
      let kept =
        Elem-remove_key j k (keys rest p) (stored-is_listed p rest k o sw (rw f at e))
          (λ x. clash (sym ((text_eq_iff j k).1 x) ∙ f)) in
      elim (Bool-cases (starts_with p j)) [ inl t ↦ rw t (inr kept) | inr f' ↦ rw f' kept ]
]
  where
    clash : true ≡ false → ⊥
    clash x = cc

pub none_or_some :
    {A : Type 0} (down : Bool) (a : A)
    → ((if down then none else some a) ≡ none) ⊎ ((if down then none else some a) ≡ some a)
none_or_some true a = inl refl
none_or_some false a = inr refl

unfoldable pub memory-IsEtcd : (down : Bool) → IsEtcd (memory down)
unfolding memory
memory-IsEtcd down = record {
  cell = cell;
  keys = λ s p. keys s p;
  get_reply = λ k s. none_or_some down (pair_of k (cell s k));
  get_keeps = λ k s j. refl;
  put_ok = λ k r s h j. cell-put k j r s;
  put_cell = λ k r s j. inr (cell-put k j r s);
  delete_ok = λ k s h j. cell-without k j s;
  delete_cell = λ k s j. inr (cell-without k j s);
  delete_prefix_ok = λ p s h j. cell-without_prefix p j s;
  prefix_reply = λ p s. inr refl;
  prefix_keeps = λ p s j. refl;
  keys_iff = λ p s k.
      (λ m. listed-is_stored p s k m, λ h. let (sw, o, e) = h in stored-is_listed p s k o sw e);
  keys_distinct = λ p s. keys-Distinct p s;
}
