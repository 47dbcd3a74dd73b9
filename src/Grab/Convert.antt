-- ===== src/Grab/Convert.antt =====
-- drmtap_convert_dmabuf of src/drm_grab.c: a DMA-BUF that another process describes is checked and
-- converted through EGL or on the CPU.
pub mod Sound
pub mod Exits
pub mod Accepted
use libdrmtap.Prelude.{
  ℕ, zero, suc, ◌+◌, ◌-◌, ◌*◌, ltb, leb, ◌==◌, ◌&&◌, ◌||◌, Bool, true, false, if◌then◌else◌, u32,
  Option, none, some, List, [], ◌∷◌, ◌++◌, get_or,
}
use libdrmtap.Errno.{Errno, Ret, ok, err, einval, enotsup, and_then}
use libdrmtap.Memory.{Buffer, memcpy}
use libdrmtap.Memory.Repack.{repack, Copy, no_copy, copied}
use libdrmtap.Pixel.Tiling.{mod_linear}
use libdrmtap.Pixel.Format.{xrgb8888}
use libdrmtap.Grab.Geometry.{validate_fb_dims, validate_fb_size}
use libdrmtap.Grab.Output.{Out, Dest, user, owned, ensure_out}
use libdrmtap.Grab.Fast.{
  Mapping, null, failed, mapped, Event, map_at, unmap, sync_start, sync_refused, sync_end, is_set,
  Planes,
}
use libdrmtap.Grab.Fast.Frame.{Frame}
use libdrmtap.Grab.OneShot.{zero_frame, same_address}
use libdrmtap.Grab.OneShot.ByHelper.{covers}
use libdrmtap.Grab.OneShot.Call.{Desc}

-- What the kernel says of a descriptor: whether a SYNC_START succeeds, which it does on a DMA-BUF
-- only, and its size by lseek and by fstat. 0 stands for a size that is not positive.
pub record Probe : Type 0 where
  pub granted : Bool
  pub seek : Option ℕ
  pub stat : Option ℕ

abbrev pub size_of_stat : Option ℕ → ℕ
size_of_stat none = 0
size_of_stat (some n) = n

abbrev pub fd_size : Option ℕ → Option ℕ → ℕ
fd_size none stat = size_of_stat stat
fd_size (some zero) stat = size_of_stat stat
fd_size (some (suc n)) stat = suc n

abbrev pub probe_size : Probe → ℕ
probe_size p = fd_size p.seek p.stat

-- What the rest answers: drmtap_gpu_egl_convert with the pixels it gives, mmap, gpu_auto_process on
-- the mapped frame, and the output buffer when it is asked for. `source` is the mapped memory, and
-- `garbage` what the output buffer holds before.
pub record Answers : Type 0 where
  pub first : Probe
  pub egl : Bool
  pub egl_convert : Ret (Option ℕ)
  pub second : Probe
  pub cpu_map : Ret ℕ
  pub process : Frame → Ret (Unit {0}) × Frame
  pub malloc : Bool
  pub out : Out
  pub source : Buffer
  pub garbage : ℕ → ℕ

-- The part of drmtap_ctx that is staged for the conversion.
pub record Staged : Type 0 where
  pub planes : Planes
  pub cur_hdr_eotf : ℕ
  pub cur_hdr_max_nits : ℕ

abbrev pub Outcome : Type 0
Outcome = List Event × Ret (Unit {0}) × Frame × Copy

abbrev pub after : List Event → Outcome → Outcome
after es (fs, r, f, k) = (es ++ fs, r, f, k)

abbrev pub num_planes : Desc → ℕ
num_planes d = if d.num_planes == 0 then 1 else d.num_planes

abbrev pub pitch : Desc → ℕ
pitch d = get_or d.pitches 0 0

abbrev pub offset : Desc → ℕ
offset d = get_or d.offsets 0 0

-- The checks on the numbers.
unfoldable pub check_desc : Desc → Ret (Unit {0})
check_desc d =
    if ltb 4 (num_planes d) || (d.width == 0)
    then err einval
    else and_then (validate_fb_dims 64 d.width d.height) (λ _.
      and_then (validate_fb_size (pitch d) d.height) (λ _. covers d.width (pitch d) d.format))

-- The first `n` entries, and zeroes after them.
unfoldable pub first_planes : ℕ → List ℕ → List ℕ
first_planes n [] = []
first_planes zero (x ∷ xs) = 0 ∷ first_planes zero xs
first_planes (suc n) (x ∷ xs) = x ∷ first_planes n xs

abbrev pub stage : Desc → Staged
stage d = record {
  planes = record {
    num_planes = num_planes d;
    pitches = first_planes (num_planes d) d.pitches;
    offsets = first_planes (num_planes d) d.offsets;
  };
  cur_hdr_eotf = d.hdr_eotf;
  cur_hdr_max_nits = d.hdr_max_nits;
}

abbrev pub staged_frame : Desc → Frame
staged_frame d = record zero_frame {
  width = d.width;
  height = d.height;
  stride = pitch d;
  format = d.format;
  modifier = d.modifier;
  fb_id = d.fb_id;
  dma_buf_fd = d.dma_buf_fd;
}

-- Plane 0 lies in the buffer whole; of planes 1 to n - 1 the first row does. uint64_t does not wrap.
abbrev pub main_fits : Desc → ℕ → Bool
main_fits d size = ltb 0 size && leb (offset d + pitch d * d.height) size

unfoldable pub aux_fit : ℕ → List ℕ → List ℕ → ℕ → Bool
aux_fit (suc n) (o ∷ os) (p ∷ ps) size = leb (o + p) size && aux_fit n os ps size
aux_fit n os ps size = true

abbrev pub tail : List ℕ → List ℕ
tail [] = []
tail (x ∷ xs) = xs

abbrev pub all_fit : Desc → ℕ → Bool
all_fit d size =
    main_fits d size && aux_fit (num_planes d - 1) (tail d.offsets) (tail d.pitches) size

abbrev pub refuse_unless : Bool → Ret (Unit {0})
refuse_unless true = ok tt
refuse_unless false = err einval

-- The check before either path.
abbrev pub first_probe : Bool → Probe → ℕ → Desc → List Event × Ret (Unit {0})
first_probe false p fd d = (sync_refused fd ∷ [], err einval)
first_probe true p fd d =
    (sync_start fd ∷ sync_end fd ∷ [], refuse_unless (all_fit d (probe_size p)))

abbrev pub probe_fd : Option ℕ → Probe → Desc → List Event × Ret (Unit {0})
probe_fd none p d = ([], ok tt)
probe_fd (some fd) p d = first_probe p.granted p fd d

-- The destination as an address and as memory.
abbrev pub dest_ptr : Dest → Mapping
dest_ptr (user p) = mapped p
dest_ptr (owned none) = null
dest_ptr (owned (some p)) = mapped p

abbrev pub dest_room : Dest → Out → ℕ
dest_room (user p) c = c.user_out_len
dest_room (owned none) c = 0
dest_room (owned (some p)) c = c.deswizzle.heap.size_of p

module _ (a : Answers) (d : Desc) (fd : ℕ) where
  -- 8-bit linear pixels are copied out of the mapping, row by row if there is padding.
  unfoldable pub copy_out : Buffer → Option Buffer
  copy_out dst =
      if pitch d == u32 (d.width * 4)
      then memcpy dst 0 a.source 0 (u32 (d.width * 4) * d.height)
      else repack a.source dst d.width d.height (pitch d)

  abbrev pub copy_to : Ret Dest × Out → Frame → Ret (Unit {0}) × Frame × Copy
  copy_to (err e, c) f = (err e, f, no_copy)
  copy_to (ok dst, c) f = (
    ok tt,
    record f { data_ptr = dest_ptr dst; stride = u32 (d.width * 4) },
    copied (copy_out (record { len = dest_room dst c; at = a.garbage })),
  )

  abbrev pub copy_if : Bool → Frame → Ret (Unit {0}) × Frame × Copy
  copy_if false f = (ok tt, f, no_copy)
  copy_if true f = copy_to (ensure_out a.malloc a.out (u32 (d.width * 4) * d.height)) f

  abbrev pub on_processed : ℕ → Ret (Unit {0}) × Frame → Ret (Unit {0}) × Frame × Copy
  on_processed p (err e, f) = (err e, record f { dma_buf_fd = some fd }, no_copy)
  on_processed p (ok _, f) =
      copy_if (same_address f.data_ptr (mapped p)) (record f { dma_buf_fd = some fd })

  -- A frame without pixels is an error, and an error leaves no pixels.
  abbrev pub or_not_supported : Bool → Frame → Ret (Unit {0}) × Frame
  or_not_supported true f = (ok tt, f)
  or_not_supported false f = (err enotsup, record f { data_ptr = null })

  abbrev pub concluded : Ret (Unit {0}) × Frame × Copy → Ret (Unit {0}) × Frame × Copy
  concluded (err e, f, k) = (err e, record f { data_ptr = null }, k)
  concluded (ok _, f, k) = let (r, f') = or_not_supported (is_set f.data_ptr) f in (r, f', k)

  abbrev pub with_mapping : ℕ → Frame → Outcome
  with_mapping p f =
      let r =
        concluded
          (on_processed p (a.process (record f { data_ptr = mapped p; dma_buf_fd = none }))) in
      (sync_end fd ∷ unmap p (pitch d * d.height) ∷ [], r.0, r.1, r.2)

  abbrev pub on_map : Ret ℕ → Frame → Outcome
  on_map (err e) f = (sync_end fd ∷ [], err e, f, no_copy)
  on_map (ok p) f = after (map_at p (pitch d * d.height) ∷ []) (with_mapping p f)

  abbrev pub map_checked : Bool → Frame → Outcome
  map_checked false f = (sync_end fd ∷ [], err einval, f, no_copy)
  map_checked true f = on_map a.cpu_map f

  abbrev pub second_probe : Bool → Frame → Outcome
  second_probe false f = (sync_refused fd ∷ [], err einval, f, no_copy)
  second_probe true f =
      after (sync_start fd ∷ []) (map_checked (main_fits d (probe_size a.second)) f)

module _ (a : Answers) (d : Desc) where
  -- The CPU path, which needs a descriptor.
  abbrev pub on_cpu : Option ℕ → Frame → Outcome
  on_cpu none f = ([], err einval, f, no_copy)
  on_cpu (some fd) f = second_probe a d fd a.second.granted f

  abbrev pub egl_frame : ℕ → Frame → Frame
  egl_frame p f = record f {
    data_ptr = mapped p;
    format = xrgb8888;
    stride = u32 (d.width * 4);
    modifier = mod_linear;
  }

  abbrev pub on_egl : Ret (Option ℕ) → Frame → Outcome
  on_egl (ok (some p)) f = ([], ok tt, egl_frame p f, no_copy)
  on_egl (ok none) f = on_cpu d.dma_buf_fd f
  on_egl (err e) f = on_cpu d.dma_buf_fd f

  abbrev pub by_egl : Bool → Frame → Outcome
  by_egl true f = on_egl a.egl_convert f
  by_egl false f = on_cpu d.dma_buf_fd f

  abbrev pub on_probe : Ret (Unit {0}) → Frame → Outcome
  on_probe (err e) f = ([], err e, f, no_copy)
  on_probe (ok _) f = by_egl a.egl f

  abbrev pub probed : List Event × Ret (Unit {0}) → Frame → Outcome
  probed (es, r) f = after es (on_probe r f)

  -- What is staged stays staged, whatever comes after.
  abbrev pub on_check : Ret (Unit {0}) → Frame → Staged → Outcome × Staged
  on_check (err e) f s = (([], err e, f, no_copy), s)
  on_check (ok _) f s = (probed (probe_fd d.dma_buf_fd a.first d) (staged_frame d), stage d)

  unfoldable pub convert_dmabuf : Frame → Staged → Outcome × Staged
  convert_dmabuf f s = on_check (check_desc d) f s
