-- ===== src/Fdt.antt =====
-- src/libfdt.cpp with include/libfdt.hpp: device trees and their flattened form. A text is the list of
-- its bytes. The pointer to the parent of a node is left out, and with it the phandles.
pub mod Props
pub mod Writer
mod Tests
use riscv_em.Base.{
  ℕ, zero, suc, ◌+◌, ◌-◌, ◌*◌, ◌/◌, ◌%◌, ◌^◌, u8, u32, ◌==◌, if◌then◌else◌, Bool, true, false, ◌&&◌,
  List, [], ◌∷◌, ◌++◌, length, Option, none, some,
}

pub record Prop : Type 0 where
  pub name : List ℕ
  pub data_bytes : List ℕ

mutual
  pub data Node : Type 0 where
    node : List ℕ → List Prop → Nodes → Node

  pub data Nodes : Type 0 where
    none_left : Nodes
    cons : Node → Nodes → Nodes

pub same_text : List ℕ → List ℕ → Bool
same_text [] [] = true
same_text [] (c ∷ t) = false
same_text (c ∷ s) [] = false
same_text (c ∷ s) (c' ∷ t) = (c == c') && same_text s t

-- The bytes of a number, the highest first.
pub be32 : ℕ → List ℕ
be32 v = u8 (v / 2 ^ 24) ∷ u8 (v / 2 ^ 16) ∷ u8 (v / 2 ^ 8) ∷ u8 v ∷ []

pub be64 : ℕ → List ℕ
be64 v = be32 (u32 (v / 2 ^ 32)) ++ be32 (u32 v)

-- The properties after one of them is set: it replaces one of the same name.
pub set_prop : List ℕ → List ℕ → List Prop → List Prop
set_prop name bytes [] = record { name = name; data_bytes = bytes } ∷ []
set_prop name bytes (p ∷ props) =
    if same_text p.name name
    then record p { data_bytes = bytes } ∷ props
    else p ∷ set_prop name bytes props

pub add_prop : List ℕ → List ℕ → Node → Node
add_prop [] bytes n = n
add_prop (c ∷ name) bytes (Node.node node_name props children) =
    Node.node node_name (set_prop (c ∷ name) bytes props) children

pub add_prop_u32 : List ℕ → ℕ → Node → Node
add_prop_u32 name val n = add_prop name (be32 val) n

pub add_prop_u64 : List ℕ → ℕ → Node → Node
add_prop_u64 name val n = add_prop name (be64 val) n

pub add_prop_reg : List ℕ → ℕ → ℕ → Node → Node
add_prop_reg name begin size n = add_prop name (be64 begin ++ be64 size) n

pub add_prop_str : List ℕ → List ℕ → Node → Node
add_prop_str name val n = add_prop name (val ++ (0 ∷ [])) n

-- The bytes of the first property of that name, which may be none at all.
pub find_prop : List ℕ → List Prop → Option (List ℕ)
find_prop name [] = none
find_prop name (p ∷ props) =
    if same_text p.name name then some p.data_bytes else find_prop name props

-- A null pointer, `none`, for a property with no bytes as for one that is not there.
pub data_pointer : Option (List ℕ) → Option (List ℕ)
data_pointer none = none
data_pointer (some []) = none
data_pointer (some (b ∷ bytes)) = some (b ∷ bytes)

pub get_prop_data : List ℕ → Node → Option (List ℕ)
get_prop_data name (Node.node node_name props children) = data_pointer (find_prop name props)

pub data_size : Option (List ℕ) → ℕ
data_size none = 0
data_size (some bytes) = length bytes

pub get_prop_size : List ℕ → Node → ℕ
get_prop_size name (Node.node node_name props children) = data_size (find_prop name props)

abbrev pub props_of : Node → List Prop
props_of (Node.node node_name props children) = props

pub erase_prop : List ℕ → List Prop → Bool × List Prop
erase_prop name [] = (false, [])
erase_prop name (p ∷ props) =
    let (found, rest) = erase_prop name props in
    if same_text p.name name then (true, props) else (found, p ∷ rest)

pub del_prop : List ℕ → Node → Bool × Node
del_prop name (Node.node node_name props children) =
    let (found, rest) = erase_prop name props in (found, Node.node node_name rest children)

pub append_node : Nodes → Node → Nodes
append_node Nodes.none_left child = Nodes.cons child Nodes.none_left
append_node (Nodes.cons n rest) child = Nodes.cons n (append_node rest child)

pub add_child : Node → Node → Node
add_child (Node.node name props children) child = Node.node name props (append_node children child)

pub name_of : Node → List ℕ
name_of (Node.node name props children) = name

pub find_in : List ℕ → Nodes → Option Node
find_in name Nodes.none_left = none
find_in name (Nodes.cons n rest) = if same_text (name_of n) name then some n else find_in name rest

pub find_child : List ℕ → Node → Option Node
find_child name (Node.node own props children) = find_in name children
