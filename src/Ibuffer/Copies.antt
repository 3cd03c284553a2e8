-- ===== src/Ibuffer/Copies.antt =====
-- ibuffer.hpp: the memory of a copy.
use asyncmsg.Base.{
  ℕ, suc, ◌<◌, ◌≡◌, refl, subst, sym, ap, ◌∙◌, arith, some, List, length, lt→ltb, ◌==◌, ==_refl,
  ne→==, take_of_length-le, set, unset,
}
use asyncmsg.Ibuffer.{Heap, Ibuffer, at, construct, destruct, copy}

-- The buffer owns a block with these bytes, at least one.
pub record Owns (h : Heap) (b : Ibuffer) (i : ℕ) (bytes : List ℕ) : Type 0 where
  pub pointer : b.buf ≡ some i
  pub block : h.blocks i ≡ some bytes
  pub sized : length bytes ≡ b.len
  pub some_bytes : 0 < b.len
  pub given_out : i < h.unused

copied :
    (left : ℕ → List ℕ) (h : Heap) (b : Ibuffer) (i : ℕ) (bytes : List ℕ)
    → Owns h b i bytes
    → copy left h b ≡ (
      record { blocks = set ◌==◌ h.blocks h.unused bytes; unused = suc h.unused },
      record { buf = some h.unused; len = b.len },
    )
unfolding copy construct at
copied left h b i bytes v =
    simp
      (
        v.pointer,
        v.block,
        lt→ltb 0 b.len v.some_bytes,
        take_of_length-le b.len bytes (omega (arith, v.sized)),
      )
      refl

-- The heap with the copy, and with the copy only.
abbrev pub with_copy : Heap → List ℕ → Heap
with_copy h bytes = record { blocks = set ◌==◌ h.blocks h.unused bytes; unused = suc h.unused }

abbrev pub copy_only : Heap → ℕ → List ℕ → Heap
copy_only h i bytes = record (with_copy h bytes) {
  blocks = unset ◌==◌ (set ◌==◌ h.blocks h.unused bytes) i;
}

destruct_at :
    (h : Heap) (b : Ibuffer) (i : ℕ) (bytes : List ℕ)
    → b.buf ≡ some i
    → h.blocks i ≡ some bytes
    → destruct h b ≡ some (record h { blocks = unset ◌==◌ h.blocks i })
unfolding destruct
destruct_at h b i bytes pointer block = rw (pointer, destruct, block) refl

destruct_original :
    (h : Heap) (b : Ibuffer) (i : ℕ) (bytes : List ℕ)
    → Owns h b i bytes
    → destruct (with_copy h bytes) b ≡ some (copy_only h i bytes)
destruct_original h b i bytes v =
    destruct_at (with_copy h bytes) b i bytes v.pointer
      (rw (ne→== h.unused i (omega (arith, v.given_out))) v.block)

copy_only-Owns :
    (h : Heap) (b : Ibuffer) (i : ℕ) (bytes : List ℕ)
    → Owns h b i bytes
    → Owns (copy_only h i bytes) (record { buf = some h.unused; len = b.len }) h.unused bytes
copy_only-Owns h b i bytes v = record {
  pointer = refl;
  block = rw (ne→== i h.unused (omega (arith, v.given_out)), ==_refl h.unused) refl;
  sized = v.sized;
  some_bytes = v.some_bytes;
  given_out = omega arith;
}

-- A copy has the bytes and the length of the original in a block of its own: the original can be
-- destroyed, and the copy still holds them.
pub copy_survives :
    (left : ℕ → List ℕ) (h : Heap) (b : Ibuffer) (i : ℕ) (bytes : List ℕ)
    → Owns h b i bytes
    → (h' : Heap) × (destruct (copy left h b).0 b ≡ some h')
      × Owns h' (copy left h b).1 h.unused bytes
copy_survives left h b i bytes v =
    let e = copied left h b i bytes v in
    (
      copy_only h i bytes,
      ap (λ r. destruct r.0 b) e ∙ destruct_original h b i bytes v,
      subst (λ r. Owns (copy_only h i bytes) r.1 h.unused bytes) (sym e)
          (copy_only-Owns h b i bytes v),
    )
