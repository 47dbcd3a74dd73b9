-- ===== src/Tests/Diff.antt =====
-- drmtap_diff_frames on a frame of 3 by 2 pixels with tiles of 2 by 2.
use libdrmtap.Prelude.{◌≡◌, ◌↔◌, arith, some, ◌==◌, if◌then◌else◌}
use libdrmtap.Errno.{ok}
use libdrmtap.Memory.{Buffer}
use libdrmtap.Pixel.Diff.{Dirty, diff_frames}
use libdrmtap.Pixel.Diff.Tile.{Frames}
use libdrmtap.Pixel.Diff.Api.{Reports, Equal, diff_frames-Reports, diff_frames_zero_iff}

abbrev still : Buffer
still = record { len = 24; at = λ i. 7 }

-- The last pixel of the first row changes.
abbrev moved : Buffer
moved = record { len = 24; at = λ i. if i == 9 then 8 else 7 }

abbrev fit : Frames still moved 3 2 12 2
fit = record {
  in_row = omega arith;
  in_a = omega arith;
  in_b = omega arith;
  below_4g = omega arith;
  narrow = omega arith;
  low = omega arith;
  positive = omega arith;
  small = omega arith;
}

diff_frames-Reports_example :
    (s : Dirty) × (diff_frames (some still) (some moved) 3 2 12 4 2 ≡ ok (some s))
    × Reports still moved 3 2 12 4 s
diff_frames-Reports_example = diff_frames-Reports still moved 3 2 12 4 2 fit (omega arith)

diff_frames_zero_iff_example :
    ((s : Dirty) × (diff_frames (some still) (some moved) 3 2 12 4 2 ≡ ok (some s))
      × (s.dirty_count ≡ 0))
    ↔ Equal still moved 3 2 12
diff_frames_zero_iff_example = diff_frames_zero_iff still moved 3 2 12 4 2 fit (omega arith)
