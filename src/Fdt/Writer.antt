-- ===== src/Fdt/Writer.antt =====
-- The flattened form of a device tree. The buffer is a function from offsets to bytes.
pub mod Sizes
pub mod Bounds
use riscv_em.Base.{
  ℕ, zero, suc, ◌+◌, ◌-◌, ◌*◌, ◌/◌, ◌%◌, ◌^◌, u32, ltb, ◌==◌, if◌then◌else◌, Bool, true, false,
  List, [], ◌∷◌, ◌++◌, length, Option, none, some,
}
use riscv_em.Fdt.{Prop, Node, Nodes, be32}

-- `align_up` to four bytes.
unfoldable pub align_up : ℕ → ℕ
align_up v = (v + 3) / 4 * 4

pub record SizeDesc : Type 0 where
  pub struct_size : ℕ
  pub string_size : ℕ

pub add_size : ℕ → ℕ → SizeDesc → SizeDesc
add_size struct_bytes string_bytes desc = record {
  struct_size = u32 (desc.struct_size + struct_bytes);
  string_size = u32 (desc.string_size + string_bytes);
}

pub props_size : List Prop → SizeDesc → SizeDesc
props_size [] desc = desc
props_size (p ∷ props) desc =
    props_size props (
      add_size (12 + u32 (align_up (length p.data_bytes))) (u32 (align_up (length p.name + 1)))
        desc)

mutual
  pub get_tree_size : Node → SizeDesc → SizeDesc
  get_tree_size (Node.node name props children) desc =
      let begun = add_size (4 + u32 (align_up (length name + 1))) 0 desc in
      add_size 4 0 (get_trees_size children (props_size props begun))

  pub get_trees_size : Nodes → SizeDesc → SizeDesc
  get_trees_size Nodes.none_left desc = desc
  get_trees_size (Nodes.cons n rest) desc = get_trees_size rest (get_tree_size n desc)

pub record SerializerCtx : Type 0 where
  pub buf : ℕ → ℕ
  pub struct_off : ℕ
  pub strings_begin : ℕ
  pub strings_off : ℕ

-- The part of a text before its first zero.
pub c_str : List ℕ → List ℕ
c_str [] = []
c_str (zero ∷ text) = []
c_str (suc c ∷ text) = suc c ∷ c_str text

pub put_bytes : ℕ → List ℕ → (ℕ → ℕ) → ℕ → ℕ
put_bytes off [] buf = buf
put_bytes off (b ∷ bytes) buf = put_bytes (off + 1) bytes (λ k. if k == off then b else buf k)

pub ser_u32 : ℕ → SerializerCtx → SerializerCtx
ser_u32 value ctx = record ctx {
  buf = put_bytes ctx.struct_off (be32 value) ctx.buf;
  struct_off = u32 (ctx.struct_off + 4);
}

pub ser_string : List ℕ → SerializerCtx → SerializerCtx
ser_string s ctx = record ctx {
  buf = put_bytes ctx.struct_off (c_str s ++ (0 ∷ [])) ctx.buf;
  struct_off = u32 (align_up (ctx.struct_off + length (c_str s) + 1));
}

pub ser_data : List ℕ → SerializerCtx → SerializerCtx
ser_data bytes ctx = record ctx {
  buf = put_bytes ctx.struct_off bytes ctx.buf;
  struct_off = u32 (align_up (u32 (ctx.struct_off + length bytes)));
}

pub ser_name : List ℕ → SerializerCtx → SerializerCtx
ser_name s ctx = record ctx {
  buf = put_bytes ctx.strings_off (c_str s ++ (0 ∷ [])) ctx.buf;
  strings_off = u32 (align_up (ctx.strings_off + length (c_str s) + 1));
}

pub ser_prop : Prop → SerializerCtx → SerializerCtx
ser_prop p ctx =
    let named =
      ser_u32 (u32 (ctx.strings_off + 2 ^ 32 - ctx.strings_begin))
        (ser_u32 (length p.data_bytes) (ser_u32 3 ctx)) in
    ser_name p.name (ser_data p.data_bytes named)

pub ser_props : List Prop → SerializerCtx → SerializerCtx
ser_props [] ctx = ctx
ser_props (p ∷ props) ctx = ser_props props (ser_prop p ctx)

mutual
  pub ser_tree : Node → SerializerCtx → SerializerCtx
  ser_tree (Node.node name props children) ctx =
      ser_u32 2 (ser_trees children (ser_props props (ser_string name (ser_u32 1 ctx))))

  pub ser_trees : Nodes → SerializerCtx → SerializerCtx
  ser_trees Nodes.none_left ctx = ctx
  ser_trees (Nodes.cons n rest) ctx = ser_trees rest (ser_tree n ctx)

-- The size of the structure block, with the final token.
pub total_desc : Node → SizeDesc
total_desc n = add_size 4 0 (get_tree_size n (record { struct_size = 0; string_size = 0 }))

pub size_of_tree : Node → ℕ
size_of_tree n = let desc = total_desc n in u32 (40 + 16 + desc.struct_size + desc.string_size)

-- The header, and the offsets where the blocks begin.
pub header : ℕ → ℕ → SizeDesc → List ℕ
header buf_size boot_cpuid desc =
    be32 0xd00dfeed
    ++ be32 buf_size
    ++ be32 56
    ++ be32 (u32 (56 + desc.struct_size))
    ++ be32 40
    ++ be32 17
    ++ be32 16
    ++ be32 boot_cpuid
    ++ be32 desc.string_size
    ++ be32 desc.struct_size

pub started : Node → ℕ → SerializerCtx
started n boot_cpuid =
    let desc = total_desc n in
    let strings_begin = u32 (56 + desc.struct_size) in
    record {
      buf = put_bytes 0 (header (size_of_tree n) boot_cpuid desc) (λ k. 0);
      struct_off = 56;
      strings_begin = strings_begin;
      strings_off = strings_begin;
    }

-- With the flag that a buffer is given, and its number of bytes: the returned size, and the context at
-- the end if the buffer is written. Without a buffer the size is returned and nothing is written, and
-- a buffer that is too small is left alone, with 0 as the result.
pub serialize : Node → Bool → ℕ → ℕ → ℕ × Option SerializerCtx
serialize n false size boot_cpuid = (size_of_tree n, none)
serialize n true size boot_cpuid =
    if ltb size (size_of_tree n)
    then (0, none)
    else (size_of_tree n, some (ser_u32 9 (ser_tree n (started n boot_cpuid))))
