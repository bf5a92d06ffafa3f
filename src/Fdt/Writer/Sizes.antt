-- ===== src/Fdt/Writer/Sizes.antt =====
-- The sizes of the two blocks of a flattened tree.
use riscv_em.Base.{ℕ, ◌+◌, ◌%◌, ◌^◌, ◌<◌, ◌≡◌, refl, ap, ◌∙◌, u32, List, [], ◌∷◌, length, arith}
use riscv_em.Fdt.{Prop, Node, Nodes}
use riscv_em.Fdt.Writer.{
  align_up, SizeDesc, add_size, props_size, get_tree_size, get_trees_size, total_desc,
}

-- Texts without a zero byte, in all names of a tree.
unfoldable pub Plain : List ℕ → Type 0
Plain [] = Unit
Plain (c ∷ text) = (0 < c) × Plain text

unfoldable pub PlainProps : List Prop → Type 0
PlainProps [] = Unit
PlainProps (p ∷ props) = Plain p.name × PlainProps props

unfoldable mutual
  pub PlainNode : Node → Type 0
  PlainNode (Node.node name props children) = Plain name × PlainProps props × PlainNodes children

  pub PlainNodes : Nodes → Type 0
  PlainNodes Nodes.none_left = Unit
  PlainNodes (Nodes.cons n rest) = PlainNode n × PlainNodes rest

-- The sizes with no bound on the numbers.
unfoldable pub struct_of_props : List Prop → ℕ
struct_of_props [] = 0
struct_of_props (p ∷ props) = 12 + align_up (length p.data_bytes) + struct_of_props props

unfoldable pub strings_of_props : List Prop → ℕ
strings_of_props [] = 0
strings_of_props (p ∷ props) = align_up (length p.name + 1) + strings_of_props props

unfoldable mutual
  pub struct_of : Node → ℕ
  struct_of (Node.node name props children) =
      8 + align_up (length name + 1) + struct_of_props props + struct_of_nodes children

  pub struct_of_nodes : Nodes → ℕ
  struct_of_nodes Nodes.none_left = 0
  struct_of_nodes (Nodes.cons n rest) = struct_of n + struct_of_nodes rest

unfoldable mutual
  pub strings_of : Node → ℕ
  strings_of (Node.node name props children) = strings_of_props props + strings_of_nodes children

  pub strings_of_nodes : Nodes → ℕ
  strings_of_nodes Nodes.none_left = 0
  strings_of_nodes (Nodes.cons n rest) = strings_of n + strings_of_nodes rest

added : SizeDesc → ℕ → ℕ → SizeDesc
added desc s t = record { struct_size = desc.struct_size + s; string_size = desc.string_size + t }

-- There is room for so many bytes more.
record Below (s t : ℕ) (desc : SizeDesc) : Type 0 where
  struct_below : desc.struct_size + s < 2 ^ 32
  string_below : desc.string_size + t < 2 ^ 32

desc_eq :
    (s t s' t' : ℕ)
    → s ≡ s'
    → t ≡ t'
    → ◌≡◌ {A = SizeDesc}
        (record { struct_size = s; string_size = t })
        (record { struct_size = s'; string_size = t' })
desc_eq s t s' t' es et =
    ap (λ (k : ℕ). record { struct_size = k; string_size = t }) es
    ∙ ap (λ (k : ℕ). record { struct_size = s'; string_size = k }) et

add_size-added : (s t : ℕ) (desc : SizeDesc) → Below s t desc → add_size s t desc ≡ added desc s t
unfolding add_size added
add_size-added s t desc below =
    desc_eq _ _ _ _ (omega (arith, below.struct_below)) (omega (arith, below.string_below))

-- Two additions, the second one with the room that the first one leaves.
added-next :
    (s t s' t' s'' t'' : ℕ) (desc : SizeDesc) (f g : SizeDesc → SizeDesc)
    → s'' ≡ s + s'
    → t'' ≡ t + t'
    → Below s'' t'' desc
    → (Below s t desc → f desc ≡ added desc s t)
    → (Below s' t' (added desc s t) → g (added desc s t) ≡ added (added desc s t) s' t')
    → g (f desc) ≡ added desc s'' t''
unfolding added
added-next s t s' t' s'' t'' desc f g es et below first second =
    ap g (
      first (record {
        struct_below = omega (arith, es, below.struct_below);
        string_below = omega (arith, et, below.string_below);
      }))
    ∙ second (record {
      struct_below = omega (arith, es, below.struct_below);
      string_below = omega (arith, et, below.string_below);
    })
    ∙ desc_eq _ _ _ _ (omega (arith, es)) (omega (arith, et))

-- The addition of one property, with its two casts.
prop-added :
    (p : Prop) (desc : SizeDesc)
    → Below (12 + align_up (length p.data_bytes)) (align_up (length p.name + 1)) desc
    → add_size (12 + u32 (align_up (length p.data_bytes))) (u32 (align_up (length p.name + 1))) desc
      ≡ added desc (12 + align_up (length p.data_bytes)) (align_up (length p.name + 1))
unfolding added add_size
prop-added p desc below =
    let d = align_up (length p.data_bytes) in
    let n = align_up (length p.name + 1) in
    desc_eq _ _ _ _ (omega (arith, below.struct_below)) (omega (arith, below.string_below))

props_size-added :
    (props : List Prop) (desc : SizeDesc)
    → Below (struct_of_props props) (strings_of_props props) desc
    → props_size props desc ≡ added desc (struct_of_props props) (strings_of_props props)
unfolding props_size added struct_of_props strings_of_props
props_size-added [] desc below = desc_eq _ _ _ _ (omega arith) (omega arith)
props_size-added (p ∷ props) desc below =
    added-next (12 + align_up (length p.data_bytes)) (align_up (length p.name + 1))
      (struct_of_props props) (strings_of_props props) (struct_of_props (p ∷ props))
      (strings_of_props (p ∷ props)) desc
      (add_size (12 + u32 (align_up (length p.data_bytes))) (u32 (align_up (length p.name + 1))))
      (props_size props) refl refl below (prop-added p desc)
      (props_size-added props
        (added desc (12 + align_up (length p.data_bytes)) (align_up (length p.name + 1))))

name-added :
    (name : List ℕ) (desc : SizeDesc)
    → Below (4 + align_up (length name + 1)) 0 desc
    → add_size (4 + u32 (align_up (length name + 1))) 0 desc
      ≡ added desc (4 + align_up (length name + 1)) 0
unfolding added add_size
name-added name desc below =
    desc_eq _ _ _ _ (omega (arith, below.struct_below)) (omega (arith, below.string_below))

mutual
  unfolding get_tree_size get_trees_size struct_of struct_of_nodes strings_of strings_of_nodes added

  get_tree_size-added :
      (n : Node) (desc : SizeDesc)
      → Below (struct_of n) (strings_of n) desc
      → get_tree_size n desc ≡ added desc (struct_of n) (strings_of n)
  get_tree_size-added (Node.node name props children) desc below =
      let a = 4 + align_up (length name + 1) in
      let ps = struct_of_props props in
      let pt = strings_of_props props in
      let ns = struct_of_nodes children in
      let nt = strings_of_nodes children in
      let begun = add_size (4 + u32 (align_up (length name + 1))) 0 in
      let d1 = added desc a 0 in
      let d2 = added d1 ps pt in
      let d3 = added d2 ns nt in
      added-next a 0 (4 + ps + ns) (pt + nt) (struct_of (Node.node name props children)) (pt + nt)
        desc begun (λ d. add_size 4 0 (get_trees_size children (props_size props d))) (omega arith)
        (omega arith) below (name-added name desc)
        (λ below1.
          added-next ps pt (4 + ns) nt (4 + ps + ns) (pt + nt) d1 (props_size props)
            (λ d. add_size 4 0 (get_trees_size children d)) (omega arith) (omega arith) below1
            (props_size-added props d1)
            (λ below2.
              added-next ns nt 4 0 (4 + ns) nt d2 (get_trees_size children) (add_size 4 0)
                (omega arith) (omega arith) below2 (get_trees_size-added children d2)
                (add_size-added 4 0 d3)))

  get_trees_size-added :
      (ns : Nodes) (desc : SizeDesc)
      → Below (struct_of_nodes ns) (strings_of_nodes ns) desc
      → get_trees_size ns desc ≡ added desc (struct_of_nodes ns) (strings_of_nodes ns)
  get_trees_size-added Nodes.none_left desc below = desc_eq _ _ _ _ (omega arith) (omega arith)
  get_trees_size-added (Nodes.cons n rest) desc below =
      added-next (struct_of n) (strings_of n) (struct_of_nodes rest) (strings_of_nodes rest)
        (struct_of n + struct_of_nodes rest) (strings_of n + strings_of_nodes rest) desc
        (get_tree_size n) (get_trees_size rest) refl refl below (get_tree_size-added n desc)
        (get_trees_size-added rest (added desc (struct_of n) (strings_of n)))

-- The sizes that are computed before the tree is written.
pub total_desc-sizes :
    (n : Node)
    → 60 + struct_of n + strings_of n < 2 ^ 32
    → total_desc n ≡ record { struct_size = 4 + struct_of n; string_size = strings_of n }
unfolding total_desc added
total_desc-sizes n small =
    let empty : SizeDesc = record { struct_size = 0; string_size = 0 } in
    added-next (struct_of n) (strings_of n) 4 0 (4 + struct_of n) (strings_of n) empty
      (get_tree_size n) (add_size 4 0) (omega arith) (omega arith)
      (record { struct_below = omega (arith, small); string_below = omega (arith, small) })
      (get_tree_size-added n empty) (add_size-added 4 0 (added empty (struct_of n) (strings_of n)))
    ∙ desc_eq _ _ _ _ (omega arith) (omega arith)

struct_of_props-aligned : (props : List Prop) → struct_of_props props % 4 ≡ 0
unfolding struct_of_props align_up
struct_of_props-aligned [] = refl
struct_of_props-aligned (p ∷ props) = omega (arith, struct_of_props-aligned props)

mutual
  unfolding struct_of struct_of_nodes align_up

  pub struct_of-aligned : (n : Node) → struct_of n % 4 ≡ 0
  struct_of-aligned (Node.node name props children) =
      omega (arith, struct_of_props-aligned props, struct_of_nodes-aligned children)

  struct_of_nodes-aligned : (ns : Nodes) → struct_of_nodes ns % 4 ≡ 0
  struct_of_nodes-aligned Nodes.none_left = refl
  struct_of_nodes-aligned (Nodes.cons n rest) =
      omega (arith, struct_of-aligned n, struct_of_nodes-aligned rest)
