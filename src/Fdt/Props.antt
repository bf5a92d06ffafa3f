-- ===== src/Fdt/Props.antt =====
-- What a property is after it is set or deleted.
use riscv_em.Base.{
  ℕ, ◌≡◌, ◌≢◌, refl, if◌then◌else◌, true, Bool-cases, inl, inr, List, [], ◌∷◌, length, ◌==◌, none,
  some, arith,
}
use riscv_em.Fdt.{
  Prop, Node, same_text, set_prop, add_prop, find_prop, data_pointer, get_prop_data, data_size,
  get_prop_size, props_of,
}

same_text_refl : (s : List ℕ) → same_text s s ≡ true
unfolding same_text
same_text_refl [] = refl
same_text_refl (c ∷ s) = ground (arith, same_text_refl s)

same_text-eq : (s t : List ℕ) → same_text s t ≡ true → s ≡ t
unfolding same_text
same_text-eq [] [] e = refl
same_text-eq [] (c ∷ t) e = absurd cc
same_text-eq (c ∷ s) [] e = absurd cc
same_text-eq (c ∷ s) (c' ∷ t) e = ground (arith, e, same_text-eq s t)

find_prop-set_prop :
    (name other bytes : List ℕ) (props : List Prop)
    → find_prop other (set_prop name bytes props)
      ≡ (if same_text name other then some bytes else find_prop other props)
unfolding find_prop set_prop
find_prop-set_prop name other bytes [] = refl
find_prop-set_prop name other bytes (p ∷ props) = elim (Bool-cases (same_text p.name name)) [
  | inl here ↦ ground (arith, here, same_text-eq p.name name here)
  | inr later ↦ ground (
    arith,
    later,
    find_prop-set_prop name other bytes props,
    same_text-eq p.name other,
    same_text-eq name other,
    same_text_refl name,
  )
]

data_pointer-some :
    (bytes : List ℕ) → data_pointer (some bytes) ≡ (if length bytes == 0 then none else some bytes)
unfolding data_pointer
data_pointer-some [] = refl
data_pointer-some (b ∷ bytes) = ground arith

-- A property that is set under a name that is not empty has its new bytes, and every other property
-- of the node stays what it was. So the pointer is null and the size 0 if the new bytes are none, and
-- else they are the bytes and their number; for another name both are what they were.
pub get_prop-add_prop :
    (name other bytes : List ℕ) (n : Node)
    → name ≢ []
    → let n' = add_prop name bytes n in
      (find_prop other (props_of n')
        ≡ (if same_text name other then some bytes else find_prop other (props_of n)))
      × (get_prop_data other n' ≡ (
          if same_text name other
          then (if length bytes == 0 then none else some bytes)
          else get_prop_data other n))
      × (get_prop_size other n'
          ≡ (if same_text name other then length bytes else get_prop_size other n))
unfolding get_prop_data get_prop_size data_size add_prop
get_prop-add_prop [] other bytes n named = absurd (named refl)
get_prop-add_prop (c ∷ name) other bytes (Node.node own props children) named =
    let found = find_prop-set_prop (c ∷ name) other bytes props in
    elim (Bool-cases (same_text (c ∷ name) other)) [
      | inl same ↦ ground (arith, found, same, data_pointer-some bytes)
      | inr others ↦ ground (arith, found, others)
    ]
