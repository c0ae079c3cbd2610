-- ===== src/SecureFb.antt =====
-- The mock of the secure framebuffer (secure_fb_mock_impl/main.cpp): one framebuffer, its set-up and
-- its release. The display service, mmap and memref_create are arguments; `round_up` is a macro of
-- another library.
pub mod Release
mod Tests
use trusty_app_sample.Common.{
  List, Option, [], if◌then◌else◌, is_neg, negsuc, none, not, pos, some, ℕ, ℤ, ◌%◌, ◌*◌, ◌++◌, ◌==◌,
  ◌^◌, ◌∷◌,
}

-- The calls that take or give back something, with what they take or give back.
pub data Call : Type 0 where
  started stopped : Call
  allocated released : (buffer : ℕ) → Call
  mapped unmapped : (base size : ℕ) → Call
  referenced closed : (handle : ℕ) → Call

-- `secure_fb_info`, without the pixel format.
pub record FbInfo : Type 0 where
  pub buffer : ℕ
  pub size : ℕ
  pub pixel_stride : ℕ
  pub line_stride : ℕ
  pub width : ℕ
  pub height : ℕ

-- `FbDbEntry`: `buf_info` is known by a number, and `handle` is none for INVALID_IPC_HANDLE.
pub record Entry : Type 0 where
  pub fb_info : FbInfo
  pub buf_info : ℕ
  pub handle : Option ℕ

-- `new SecureFbMockImpl()`: all is zero but the handle.
abbrev pub new_entry : Entry
new_entry = record {
  fb_info = record {
    buffer = 0;
    size = 0;
    pixel_stride = 0;
    line_stride = 0;
    width = 0;
    height = 0;
  };
  buf_info = 0;
  handle = none;
}

pub data Status : Type 0 where
  fb_ok uninitialized memory_allocation shared_memory invalid_request : Status

-- What the calls of Init return.
pub record Calls : Type 0 where
  pub start_rc : ℤ
  pub allocate : ℕ → Option ℕ
  pub mmap : ℕ → Option ℕ
  pub memref_create : ℤ

abbrev pub device_width : ℕ
device_width = 400

abbrev pub device_height : ℕ
device_height = 800

abbrev pub fb_id : ℕ
fb_id = 0xdeadbeef

-- `fb_size`, a `uint32_t`
unfoldable pub fb_size : (round_up : ℕ → ℕ) (width height : ℕ) → ℕ
fb_size round_up width height = round_up (4 * width * height) % 2 ^ 32

-- The calls that were made, newest last, the entry, and the result.
abbrev pub Step : Type 0
Step = List Call × Entry × Status

module _ (round_up : ℕ → ℕ) (c : Calls) (width height : ℕ) where
  reference : (size buf base : ℕ) → (memref : ℤ) → Step
  reference size buf base (negsuc _) =
      (started ∷ allocated buf ∷ mapped base size ∷ [], new_entry, shared_memory)
  reference size buf base (pos handle) = (
    started ∷ allocated buf ∷ mapped base size ∷ referenced handle ∷ [],
    record {
      fb_info = record {
        buffer = base;
        size = size;
        pixel_stride = 4;
        line_stride = 4 * width % 2 ^ 32;
        width = width;
        height = height;
      };
      buf_info = buf;
      handle = some handle;
    },
    fb_ok,
  )

  map_buffer : (size buf : ℕ) → (base : Option ℕ) → Step
  unfolding reference
  map_buffer size buf none = (started ∷ allocated buf ∷ [], new_entry, shared_memory)
  map_buffer size buf (some base) = reference size buf base c.memref_create

  allocate_buffer : (size : ℕ) → (buf : Option ℕ) → Step
  unfolding map_buffer
  allocate_buffer size none = (started ∷ [], new_entry, memory_allocation)
  allocate_buffer size (some buf) = map_buffer size buf (c.mmap size)

  -- Init, on a new object.
  unfoldable pub init : Step
  unfolding allocate_buffer
  init =
      let size = fb_size round_up width height in
      if is_neg c.start_rc
      then ([], new_entry, uninitialized)
      else allocate_buffer size (c.allocate size)

-- The destructor. Its calls may fail, which is only logged.
unfoldable pub destroy : Entry → List Call
destroy e =
    let closing : List Call = elim e.handle [ none ↦ [] | some h ↦ closed h ∷ [] ] in
    closing ++ (unmapped e.fb_info.buffer e.fb_info.size ∷ released e.buf_info ∷ stopped ∷ [])

-- `*buffers` of GetFbs
pub record Buffers : Type 0 where
  pub num_fbs : ℕ
  pub buffer_id : ℕ
  pub handle_index : ℕ
  pub fb_info : FbInfo
  pub num_handles : ℕ
  pub handle : Option ℕ

unfoldable pub get_fbs : Entry → Status × Buffers
get_fbs e = (
  fb_ok,
  record {
    num_fbs = 1;
    buffer_id = fb_id;
    handle_index = 0;
    fb_info = e.fb_info;
    num_handles = 1;
    handle = e.handle;
  },
)

unfoldable pub display : ℕ → Status
display buffer_id = if not (buffer_id == fb_id) then invalid_request else fb_ok

-- secure_fb_impl_init: no object when Init fails, which is then deleted.
keep_or_delete : List Call → Entry → Status → List Call × Option Entry
keep_or_delete calls e fb_ok = (calls, some e)
keep_or_delete calls e _ = (calls ++ destroy e, none)

unfoldable pub secure_fb_impl_init : (round_up : ℕ → ℕ) → Calls → List Call × Option Entry
unfolding keep_or_delete
secure_fb_impl_init round_up c =
    let done = init round_up c device_width device_height in keep_or_delete done.0 done.1 done.2

unfoldable pub secure_fb_impl_release : Entry → List Call × Status
secure_fb_impl_release e = (destroy e, fb_ok)
