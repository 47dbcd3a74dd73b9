-- ===== src/Lib.antt =====
-- libdrmtap: capture of the screen through DRM/KMS, on Linux.
--
-- A client asks a context for frames. The library finds the plane that a CRTC scans out, imports
-- its framebuffer and, if the pixels are tiled or of a format that the client cannot read,
-- detiles and converts them into linear XRGB8888.
--
-- Files and code (paths from the root of the repository):
--   Prelude, Errno, Memory: numbers, lists, result codes, byte buffers and the C loops over them;
--     Memory.Repack is the loop that drops the padding of rows.
--   Pixel: src/pixel_convert.c.
--     Pixel.Tiling: drmtap_deswizzle, deswizzle_intel_x_tiled, deswizzle_intel_y_tiled; its
--       children prove the copying loop (Copy), describe the layouts from the other side (Layout)
--       and state the results (Api).
--     Pixel.Format: drmtap_convert_format, convert_ar30_to_xrgb8888, convert_abgr_to_argb.
--     Pixel.Half: half_to_float.
--     Pixel.Diff: drmtap_diff_frames; Tile is about one tile, Cover about all, Api the results.
--   Grab: src/drm_grab.c.
--     Grab.Geometry: validate_fb_dims, validate_fb_size, format_min_bpp.
--     Grab.Target: select_first_active_crtc, find_primary_plane, read_hdr_metadata_direct,
--       drmtap_crtc_refresh; Rotation is drmtap_plane_rotation, Remembered its cached id, Choice the
--       plane that is chosen.
--     Grab.Output: drmtap_ensure_buf, drmtap_ensure_out, drmtap_set_output_buffer.
--     Grab.Scanout: drmtap_scanout_width_of, read_primary_plane_rect, drmtap_scanout_width.
--     Grab.Fast: the buffer slots: fast_sync_close, fast_sync_begin, find_or_alloc_slot. Its
--       children are drmtap_grab_mapped_fast (Frame: a cached slot, and drmtap_fast_cleanup; Import: a
--       cache miss; Call: the whole call) and the proofs: Ledger weighs resources, Slots and
--       Find say what shape the slots have, Conserved goes through every exit, Runs states the
--       results.
--     Grab.Process: gpu_auto_process, reduce_linear_to_xrgb8888; Honest has the result.
--     Grab.OneShot: the frame, its private state and drmtap_frame_release. Direct is the grab by
--       the process itself, ByHelper that through the helper, Call the choice between them
--       (do_grab, drmtap_grab_desc); Conserved follows the resources, Pixels the data.
--     Grab.Convert: drmtap_convert_dmabuf; Sound, Exits and Accepted are about its checks, its
--       exits and what is accepted.
--   Context: src/drmtap.c: open_drm_auto, drmtap_open, drmtap_list_devices, on the list of what the
--     16 nodes answer. Ranked is about the device that is chosen, Opened about the descriptors,
--     Render is pick_scanout_render_node on what the names and files of sysfs say.
--   Cursor: src/cursor.c. Plane is about the choice of the plane, Sample about the answer.
--   Server: helper/drmtap-helper.c, what it does for a command. Server: plane_is_primary and the
--     search for the plane. Server.Grab: grab_and_send; Server.Cursor: cursor_and_send. Server.Probe
--     is about the remembered planes, Server.SamePlane about the plane of the helper and that of the
--     library.
--   Wire: src/wire.h and the event loop of helper/drmtap-helper.c.
--     Wire.Stream: wire_send_all, wire_recv_all on a schedule of what each call does.
--     Wire.Descriptor: wire_recv_fd. Wire.Command: wire_cmd, wire_cmd_valid and their 16 bytes.
--     Wire.Serve: main's loop.
--   Helper: src/privilege_helper.c: drmtap_helper_spawn, drmtap_helper_stop and
--     drmtap_helper_get_cursor; Helper.Outcome goes through its exits. Helper.Grab:
--     drmtap_helper_grab, on a schedule of what each call on the socket does.
--   Display: src/drm_enumerate.c. Display.Refresh: drmtap_mode_refresh. Display.Topology:
--     drmtap_list_displays, topology_hash, drmtap_displays_changed; Listing has the results.
--   Tests: runs on small inputs.
--
-- State: a C struct is a record with the fields that its functions use (Slot is
-- drmtap_ctx.fast_slots[i], Memo the sw_ fields, Out the output buffer). A function that changes
-- the context takes the record and returns the new one; the system calls that matter are a list
-- of events beside it. What the kernel answers is an argument.
--
-- Numbers are unbounded; uint32_t arithmetic has `% 2 ^ 32` written out (u32). Offsets that the C
-- code computes in size_t are exact, on the assumption of 64 bits; where the width of size_t
-- matters it is a parameter. An access out of a buffer's bounds is a fault, `none`, and so is a
-- loop that runs out of fuel. Fuel is used by the normalisation loop of half_to_float, 11
-- steps, enough for a mantissa of 10 bits, of drmtap_helper_get_cursor, which calls itself at
-- most twice, and of refresh_gcd, whose remainders fall.
--
-- Not modelled: the ioctls themselves, logging and error messages, EGL and the other GPU back ends
-- (what they answer is a parameter), floating-point HDR arithmetic, the rest of src/drmtap.c, and the
-- test for a heap buffer that decides how a frame is freed. The virtio transfer ioctls of the helper
-- and its debug output have no effect on what it sends.
mod Prelude
pub mod Errno
pub mod Memory
pub mod Pixel
pub mod Grab
pub mod Wire
pub mod Helper
pub mod Display
pub mod Cursor
pub mod Context
pub mod Server
pub mod Tests
