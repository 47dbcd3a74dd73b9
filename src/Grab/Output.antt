-- ===== src/Grab/Output.antt =====
-- drmtap_ensure_buf and drmtap_ensure_out of src/drm_grab.c, and drmtap_set_output_buffer of
-- src/drmtap.c: where converted pixels go.
pub mod Owned
use libdrmtap.Prelude.{
  ℕ, ◌+◌, ◌^◌, Bool, ◌&&◌, ltb, leb, ◌==◌, if◌then◌else◌, u32, Option, none, some, true, false,
}
use libdrmtap.Errno.{Errno, Ret, ok, err, einval, efbig, enomem, enospc}
use libdrmtap.Grab.Geometry.{max_fb_bytes}

-- The C heap: the size of each live block, 0 where there is none, and the next address.
pub record Heap : Type 0 where
  pub next : ℕ
  pub size_of : ℕ → ℕ

abbrev pub resize : (ℕ → ℕ) → ℕ → ℕ → ℕ → ℕ
resize size_of p n q = if p == q then n else size_of q

-- free(p); free(NULL) does nothing.
abbrev pub free : Option ℕ → Heap → Heap
free none h = h
free (some p) h = record h { size_of = resize h.size_of p 0 }

-- A buffer that grows once: `*buf` and `*cap`.
pub record Grow : Type 0 where
  pub heap : Heap
  pub buf : Option ℕ
  pub cap : ℕ

abbrev holds : Option ℕ → ℕ → ℕ → Bool
holds none cap size = false
holds (some p) cap size = leb size cap

-- After free(*buf): malloc, which succeeds if `granted`.
abbrev regrow : Bool → Grow → ℕ → Ret (Unit {0}) × Grow
regrow true g size =
    let h = free g.buf g.heap in
    (
      ok tt,
      record {
        heap = record { next = h.next + 1; size_of = resize h.size_of h.next size };
        buf = some h.next;
        cap = size;
      },
    )
regrow false g size = (err enomem, record { heap = free g.buf g.heap; buf = none; cap = 0 })

unfoldable pub ensure_buf : Bool → Grow → ℕ → Ret (Unit {0}) × Grow
ensure_buf granted g size =
    if size == 0
    then (err einval, g)
    else if ltb max_fb_bytes size
    then (err efbig, g)
    else if holds g.buf g.cap size
    then (ok tt, g)
    else regrow granted g size

-- The part of drmtap_ctx that ensure_out uses. `deswizzle` is deswizzle_buf with its size.
pub record Out : Type 0 where
  pub user_out : Option ℕ
  pub user_out_len : ℕ
  pub deswizzle : Grow
  pub out_gen : ℕ

-- Where the pixels go: the caller's memory, or a block that the context owns.
pub data Dest : Type 0 where
  user : ℕ → Dest
  owned : Option ℕ → Dest

-- `*out = ctx->deswizzle_buf` after a successful ensure_buf.
abbrev owned_out : Out → Ret (Unit {0}) × Grow → Ret Dest × Out
owned_out c (ok _, g) = (ok (owned g.buf), record c { deswizzle = g })
owned_out c (err e, g) = (err e, record c { deswizzle = g })

abbrev choose_out : Option ℕ → Bool → Out → ℕ → Ret Dest × Out
choose_out none granted c size = owned_out c (ensure_buf granted c.deswizzle size)
choose_out (some p) granted c size =
    if ltb c.user_out_len size then (err enospc, c) else (ok (user p), c)

unfoldable pub ensure_out : Bool → Out → ℕ → Ret Dest × Out
ensure_out granted c size =
    if size == 0
    then (err einval, c)
    else let c' = record c { out_gen = u32 (c.out_gen + 1) } in
      if ltb max_fb_bytes size then (err efbig, c') else choose_out c.user_out granted c' size

-- drmtap_set_output_buffer; without a buffer the length is ignored.
unfoldable pub set_output_buffer : Option ℕ → ℕ → Out → Ret (Unit {0}) × Out
set_output_buffer none len c = (ok tt, record c { user_out = none; user_out_len = 0 })
set_output_buffer (some p) len c =
    if len == 0
    then (err einval, c)
    else (ok tt, record c { user_out = some p; user_out_len = len })
