-- ===== src/Fdt/Tests.antt =====
-- A tree with one child.
use riscv_em.Base.{
  ℕ, ◌≡◌, ◌≤◌, ◌<◌, ◌⊎◌, if◌then◌else◌, List, [], ◌∷◌, length, ◌==◌, none, some, true, false, arith,
}
use riscv_em.Fdt.{
  Node, Nodes, same_text, add_prop, find_prop, get_prop_data, get_prop_size, props_of,
}
use riscv_em.Fdt.Props.{get_prop-add_prop}
use riscv_em.Fdt.Writer.{SerializerCtx, size_of_tree, serialize, started, align_up}
use riscv_em.Fdt.Writer.Bounds.{serialize-Whole, whole_size}
use riscv_em.Fdt.Writer.Sizes.{
  Plain, PlainNode, PlainProps, struct_of, strings_of, struct_of_props, strings_of_props,
}

-- "reg", and the name of a child.
abbrev reg : List ℕ
reg = 114 ∷ 101 ∷ 103 ∷ []

abbrev soc : List ℕ
soc = 115 ∷ 111 ∷ 99 ∷ []

abbrev child : Node
child = Node.node soc (record { name = reg; data_bytes = 1 ∷ 2 ∷ [] } ∷ []) Nodes.none_left

abbrev tree : Node
tree = Node.node [] [] (Nodes.cons child Nodes.none_left)

abbrev seven : List ℕ
seven = 7 ∷ []

get_prop-add_prop_example :
    let child' = add_prop reg seven child in
    (find_prop reg (props_of child')
      ≡ (if same_text reg reg then some seven else find_prop reg (props_of child)))
    × (get_prop_data reg child' ≡ (
        if same_text reg reg
        then (if length seven == 0 then none else some seven)
        else get_prop_data reg child))
    × (get_prop_size reg child'
        ≡ (if same_text reg reg then length seven else get_prop_size reg child))
get_prop-add_prop_example = get_prop-add_prop reg reg seven child (λ e. absurd cc)

serialize-Whole_example :
    (ctx : SerializerCtx) × (serialize tree true 4096 0 ≡ (size_of_tree tree, some ctx))
    × (serialize tree false 4096 0 ≡ (size_of_tree tree, none))
    × (ctx.struct_off ≡ ctx.strings_begin)
    × (ctx.strings_off ≡ size_of_tree tree)
    × ((k : ℕ) → ((56 ≤ k) × (k < size_of_tree tree)) ⊎ (ctx.buf k ≡ (started tree 0).buf k))
unfolding PlainNode PlainProps Plain whole_size struct_of strings_of struct_of_props
    strings_of_props align_up
serialize-Whole_example = serialize-Whole tree 4096 0 (omega arith) (omega arith) (omega arith)
