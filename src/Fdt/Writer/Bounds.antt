-- ===== src/Fdt/Writer/Bounds.antt =====
-- The flattened tree has the size that is computed before, and no write leaves it.
use riscv_em.Base.{
  ℕ, zero, suc, ◌+◌, ◌-◌, ◌%◌, ◌^◌, ◌≤◌, ◌<◌, ◌≡◌, ◌⊎◌, inl, inr, refl, ap, ◌∙◌, u32, ltb, ◌==◌,
  if◌then◌else◌, true, false, List, [], ◌∷◌, ◌++◌, length, length-append, none, some, arith,
}
use native.Mathlib.Decide.{dec_lt}
use riscv_em.Fdt.{Prop, Node, Nodes, be32}
use riscv_em.Fdt.Writer.{
  align_up, SizeDesc, SerializerCtx, c_str, put_bytes, ser_u32, ser_string, ser_data, ser_name,
  ser_prop, ser_props, ser_tree, ser_trees, size_of_tree, started, serialize,
}
use riscv_em.Fdt.Writer.Sizes.{
  Plain, PlainProps, PlainNode, PlainNodes, struct_of_props, strings_of_props, struct_of,
  struct_of_nodes, strings_of, strings_of_nodes, total_desc-sizes, struct_of-aligned,
}

c_str-Plain : (text : List ℕ) → Plain text → c_str text ≡ text
unfolding c_str Plain
c_str-Plain [] plain = refl
c_str-Plain (zero ∷ text) plain = absurd (omega (arith, plain.0))
c_str-Plain (suc c ∷ text) plain = ap (λ t. suc c ∷ t) (c_str-Plain text plain.1)

put_bytes-outside :
    (off : ℕ) (bytes : List ℕ) (buf : ℕ → ℕ) (k : ℕ)
    → (k < off) ⊎ (off + length bytes ≤ k)
    → put_bytes off bytes buf k ≡ buf k
unfolding put_bytes
put_bytes-outside off [] buf k out = refl
put_bytes-outside off (b ∷ bytes) buf k out =
    put_bytes-outside (off + 1) bytes (λ k'. if k' == off then b else buf k') k (ground arith)
    ∙ ground arith

-- So many bytes have been written at each of the two places, and no other byte has changed.
pub record Moved (s t : ℕ) (ctx ctx' : SerializerCtx) : Type 0 where
  struct_moved : ctx'.struct_off ≡ ctx.struct_off + s
  strings_moved : ctx'.strings_off ≡ ctx.strings_off + t
  begin_kept : ctx'.strings_begin ≡ ctx.strings_begin
  still_aligned : (ctx'.struct_off % 4 ≡ 0) × (ctx'.strings_off % 4 ≡ 0)
  outside :
      (k : ℕ)
      → (k < ctx.struct_off) ⊎ (ctx.struct_off + s ≤ k)
      → (k < ctx.strings_off) ⊎ (ctx.strings_off + t ≤ k)
      → ctx'.buf k ≡ ctx.buf k

-- There is room for so many bytes at each place.
record Room (s t : ℕ) (ctx : SerializerCtx) : Type 0 where
  aligned : ctx.struct_off % 4 ≡ 0
  strings_aligned : ctx.strings_off % 4 ≡ 0
  struct_room : ctx.struct_off + s < 2 ^ 32
  strings_room : ctx.strings_off + t < 2 ^ 32

-- Two writes, the second one in the room that the first one leaves.
Moved-next :
    (s t s' t' s'' t'' : ℕ) (ctx ctx' ctx'' : SerializerCtx)
    → s'' ≡ s + s'
    → t'' ≡ t + t'
    → Room s'' t'' ctx
    → (Room s t ctx → Moved s t ctx ctx')
    → (Room s' t' ctx' → Moved s' t' ctx' ctx'')
    → Moved s'' t'' ctx ctx''
Moved-next s t s' t' s'' t'' ctx ctx' ctx'' es et room write_first write_second =
    let first = write_first (record {
      aligned = room.aligned;
      strings_aligned = room.strings_aligned;
      struct_room = omega (arith, room.struct_room, es);
      strings_room = omega (arith, room.strings_room, et);
    }) in
    let second = write_second (record {
      aligned = first.still_aligned.0;
      strings_aligned = first.still_aligned.1;
      struct_room = omega (arith, room.struct_room, first.struct_moved, es);
      strings_room = omega (arith, room.strings_room, first.strings_moved, et);
    }) in
    record {
      struct_moved = omega (arith, first.struct_moved, second.struct_moved, es);
      strings_moved = omega (arith, first.strings_moved, second.strings_moved, et);
      begin_kept = second.begin_kept ∙ first.begin_kept;
      still_aligned = second.still_aligned;
      outside = λ k out out'.
          second.outside k (ground (arith, first.struct_moved, es, out))
            (ground (arith, first.strings_moved, et, out'))
          ∙ first.outside k (ground (arith, es, out)) (ground (arith, et, out'));
    }

ser_u32-Moved : (value : ℕ) (ctx : SerializerCtx) → Room 4 0 ctx → Moved 4 0 ctx (ser_u32 value ctx)
unfolding ser_u32 be32
ser_u32-Moved value ctx room = record {
  struct_moved = omega (arith, room.struct_room);
  strings_moved = omega arith;
  begin_kept = refl;
  still_aligned = (omega (arith, room.struct_room, room.aligned), room.strings_aligned);
  outside =
      λ k out out'. put_bytes-outside ctx.struct_off (be32 value) ctx.buf k (ground (arith, out));
}

ser_string-Moved :
    (s : List ℕ) (ctx : SerializerCtx)
    → Plain s
    → Room (align_up (length s + 1)) 0 ctx
    → Moved (align_up (length s + 1)) 0 ctx (ser_string s ctx)
unfolding ser_string align_up
ser_string-Moved s ctx plain room = rw (c_str-Plain s plain) (record {
  struct_moved = omega (arith, room.struct_room, room.aligned);
  strings_moved = omega arith;
  begin_kept = refl;
  still_aligned = (omega (arith, room.struct_room, room.aligned), room.strings_aligned);
  outside = λ k out out'.
      put_bytes-outside ctx.struct_off (s ++ (0 ∷ [])) ctx.buf k
        (ground (arith, out, length-append s (0 ∷ [])));
})

ser_data-Moved :
    (bytes : List ℕ) (ctx : SerializerCtx)
    → Room (align_up (length bytes)) 0 ctx
    → Moved (align_up (length bytes)) 0 ctx (ser_data bytes ctx)
unfolding ser_data align_up
ser_data-Moved bytes ctx room = record {
  struct_moved = omega (arith, room.struct_room, room.aligned);
  strings_moved = omega arith;
  begin_kept = refl;
  still_aligned = (omega (arith, room.struct_room, room.aligned), room.strings_aligned);
  outside = λ k out out'. put_bytes-outside ctx.struct_off bytes ctx.buf k (ground (arith, out));
}

ser_name-Moved :
    (s : List ℕ) (ctx : SerializerCtx)
    → Plain s
    → Room 0 (align_up (length s + 1)) ctx
    → Moved 0 (align_up (length s + 1)) ctx (ser_name s ctx)
unfolding ser_name align_up
ser_name-Moved s ctx plain room = rw (c_str-Plain s plain) (record {
  struct_moved = omega arith;
  strings_moved = omega (arith, room.strings_room, room.strings_aligned);
  begin_kept = refl;
  still_aligned = (room.aligned, omega (arith, room.strings_room, room.strings_aligned));
  outside = λ k out out'.
      put_bytes-outside ctx.strings_off (s ++ (0 ∷ [])) ctx.buf k
        (ground (arith, out', length-append s (0 ∷ [])));
})

ser_prop-Moved :
    (p : Prop) (ctx : SerializerCtx)
    → Plain p.name
    → Room (12 + align_up (length p.data_bytes)) (align_up (length p.name + 1)) ctx
    → Moved
        (12 + align_up (length p.data_bytes))
        (align_up (length p.name + 1))
        ctx
        (ser_prop p ctx)
unfolding ser_prop
ser_prop-Moved p ctx plain room =
    let d = align_up (length p.data_bytes) in
    let n = align_up (length p.name + 1) in
    let c1 = ser_u32 3 ctx in
    let c2 = ser_u32 (length p.data_bytes) c1 in
    let c3 = ser_u32 (u32 (ctx.strings_off + 2 ^ 32 - ctx.strings_begin)) c2 in
    let c4 = ser_data p.data_bytes c3 in
    let c5 = ser_name p.name c4 in
    Moved-next 4 0 (8 + d) n (12 + d) n ctx c1 c5 (omega arith) (omega arith) room
      (ser_u32-Moved 3 ctx)
      (λ room1.
        Moved-next 4 0 (4 + d) n (8 + d) n c1 c2 c5 (omega arith) (omega arith) room1
          (ser_u32-Moved (length p.data_bytes) c1)
          (λ room2.
            Moved-next 4 0 d n (4 + d) n c2 c3 c5 (omega arith) (omega arith) room2
              (ser_u32-Moved (u32 (ctx.strings_off + 2 ^ 32 - ctx.strings_begin)) c2)
              (λ room3.
                Moved-next d 0 0 n d n c3 c4 c5 (omega arith) (omega arith) room3
                  (ser_data-Moved p.data_bytes c3) (ser_name-Moved p.name c4 plain))))

Moved-refl : (ctx : SerializerCtx) → Room 0 0 ctx → Moved 0 0 ctx ctx
Moved-refl ctx room = record {
  struct_moved = omega arith;
  strings_moved = omega arith;
  begin_kept = refl;
  still_aligned = (room.aligned, room.strings_aligned);
  outside = λ k out out'. refl;
}

ser_props-Moved :
    (props : List Prop) (ctx : SerializerCtx)
    → PlainProps props
    → Room (struct_of_props props) (strings_of_props props) ctx
    → Moved (struct_of_props props) (strings_of_props props) ctx (ser_props props ctx)
unfolding ser_props struct_of_props strings_of_props PlainProps
ser_props-Moved [] ctx plain room = Moved-refl ctx room
ser_props-Moved (p ∷ props) ctx plain room =
    Moved-next (12 + align_up (length p.data_bytes)) (align_up (length p.name + 1))
      (struct_of_props props) (strings_of_props props) (struct_of_props (p ∷ props))
      (strings_of_props (p ∷ props)) ctx (ser_prop p ctx) (ser_props props (ser_prop p ctx)) refl
      refl room (ser_prop-Moved p ctx plain.0) (ser_props-Moved props (ser_prop p ctx) plain.1)

mutual
  unfolding ser_tree ser_trees struct_of struct_of_nodes strings_of strings_of_nodes PlainNode
      PlainNodes

  ser_tree-Moved :
      (n : Node) (ctx : SerializerCtx)
      → PlainNode n
      → Room (struct_of n) (strings_of n) ctx
      → Moved (struct_of n) (strings_of n) ctx (ser_tree n ctx)
  ser_tree-Moved (Node.node name props children) ctx plain room =
      let a = align_up (length name + 1) in
      let ps = struct_of_props props in
      let pt = strings_of_props props in
      let ns = struct_of_nodes children in
      let nt = strings_of_nodes children in
      let c1 = ser_u32 1 ctx in
      let c2 = ser_string name c1 in
      let c3 = ser_props props c2 in
      let c4 = ser_trees children c3 in
      let c5 = ser_u32 2 c4 in
      Moved-next 4 0 (4 + a + ps + ns) (pt + nt) (8 + a + ps + ns) (pt + nt) ctx c1 c5 (omega arith)
        (omega arith) room (ser_u32-Moved 1 ctx)
        (λ room1.
          Moved-next a 0 (4 + ps + ns) (pt + nt) (4 + a + ps + ns) (pt + nt) c1 c2 c5 (omega arith)
            (omega arith) room1 (ser_string-Moved name c1 plain.0)
            (λ room2.
              Moved-next ps pt (4 + ns) nt (4 + ps + ns) (pt + nt) c2 c3 c5 (omega arith)
                (omega arith) room2 (ser_props-Moved props c2 plain.1)
                (λ room3.
                  Moved-next ns nt 4 0 (4 + ns) nt c3 c4 c5 (omega arith) (omega arith) room3
                    (ser_trees-Moved children c3 plain.2) (ser_u32-Moved 2 c4))))

  ser_trees-Moved :
      (ns : Nodes) (ctx : SerializerCtx)
      → PlainNodes ns
      → Room (struct_of_nodes ns) (strings_of_nodes ns) ctx
      → Moved (struct_of_nodes ns) (strings_of_nodes ns) ctx (ser_trees ns ctx)
  ser_trees-Moved Nodes.none_left ctx plain room = Moved-refl ctx room
  ser_trees-Moved (Nodes.cons n rest) ctx plain room =
      Moved-next (struct_of n) (strings_of n) (struct_of_nodes rest) (strings_of_nodes rest)
        (struct_of n + struct_of_nodes rest) (strings_of n + strings_of_nodes rest) ctx
        (ser_tree n ctx) (ser_trees rest (ser_tree n ctx)) refl refl room
        (ser_tree-Moved n ctx plain.0) (ser_trees-Moved rest (ser_tree n ctx) plain.1)

-- The end of the written blocks.
unfoldable pub whole_size : Node → ℕ
whole_size n = 60 + struct_of n + strings_of n

size_of_tree-whole : (n : Node) → whole_size n < 2 ^ 32 → size_of_tree n ≡ whole_size n
unfolding size_of_tree whole_size
size_of_tree-whole n small =
    ap (λ (d : SizeDesc). u32 (40 + 16 + d.struct_size + d.string_size)) (total_desc-sizes n small)
    ∙ omega (arith, small)

-- A tree with no zero byte in its names whose flattened form is smaller than 4 GB, written to a
-- buffer that is at least as large as `size_of_tree` says: that size is returned, as it is where no
-- buffer is given; the structure block ends where the strings
-- begin, the strings end at `size_of_tree`, and only bytes from 56 on and below that size differ from
-- the zeroed buffer with the header.
pub serialize-Whole :
    (n : Node) (size boot_cpuid : ℕ)
    → PlainNode n
    → whole_size n < 2 ^ 32
    → whole_size n ≤ size
    → (ctx : SerializerCtx) × (serialize n true size boot_cpuid ≡ (size_of_tree n, some ctx))
      × (serialize n false size boot_cpuid ≡ (size_of_tree n, none))
      × (ctx.struct_off ≡ ctx.strings_begin)
      × (ctx.strings_off ≡ size_of_tree n)
      × ((k : ℕ) → ((56 ≤ k) × (k < size_of_tree n)) ⊎ (ctx.buf k ≡ (started n boot_cpuid).buf k))
unfolding serialize started whole_size
serialize-Whole n size boot_cpuid plain small enough =
    let begun = started n boot_cpuid in
    let desc = total_desc-sizes n small in
    let strings : begun.strings_off ≡ 60 + struct_of n =
      ap (λ (d : SizeDesc). u32 (56 + d.struct_size)) desc ∙ omega (arith, small) in
    let whole = size_of_tree-whole n small in
    let fits : ltb size (size_of_tree n) ≡ false = ground (arith, whole, enough) in
    let tree = ser_tree n begun in
    let ctx = ser_u32 9 tree in
    let moved =
      Moved-next (struct_of n) (strings_of n) 4 0 (struct_of n + 4) (strings_of n + 0) begun tree
        ctx refl refl
        (record {
          aligned = refl;
          strings_aligned = omega (arith, strings, struct_of-aligned n);
          struct_room = omega (arith, small);
          strings_room = omega (arith, small, strings);
        })
        (ser_tree-Moved n begun plain) (ser_u32-Moved 9 tree) in
    (
      ctx,
      rw fits refl,
      refl,
      omega (arith, moved.struct_moved, moved.begin_kept, strings),
      omega (arith, moved.strings_moved, strings, whole),
      λ k. elim (dec_lt k 56) [
        | yes low ↦ inr (moved.outside k (inl low) (inl (omega (arith, strings, low))))
        | no high ↦ elim (dec_lt k (size_of_tree n)) [
          | yes inside ↦ inl (omega (arith, high), inside)
          | no behind ↦ inr (
              moved.outside k (inr (omega (arith, whole, behind)))
                (inr (omega (arith, whole, strings, behind))))
        ]
      ],
    )
