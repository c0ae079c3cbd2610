-- ===== src/SecureFb/Tests.antt =====
-- A framebuffer of the mock.
use trusty_app_sample.Common.{[], arith, negsuc, pos, refl, some, ◌∷◌, ◌≡◌}
use trusty_app_sample.SecureFb.{
  Calls, Entry, allocated, closed, destroy, fb_size, get_fbs, init, mapped, released,
  secure_fb_impl_init, secure_fb_impl_release, started, stopped, unmapped,
}
use trusty_app_sample.SecureFb.Release.{FitsBuffer, secure_fb_impl_init-release, undone}

abbrev all_well : Calls
all_well = record {
  start_rc = pos 0;
  allocate = λ n. some 7;
  mmap = λ n. some 0x1000;
  memref_create = pos 9;
}

-- With a rounding that changes nothing.
abbrev shown : Entry
shown = record {
  fb_info = record {
    buffer = 0x1000;
    size = 1280000;
    pixel_stride = 4;
    line_stride = 1600;
    width = 400;
    height = 800;
  };
  buf_info = 7;
  handle = some 9;
}

secure_fb_impl_init-release_example :
    (closed 9 ∷ unmapped 0x1000 1280000 ∷ released 7 ∷ stopped ∷ []
      ≡ undone (secure_fb_impl_init (λ n. n) all_well).0)
    × FitsBuffer shown.fb_info
unfolding secure_fb_impl_release secure_fb_impl_init get_fbs destroy init fb_size
secure_fb_impl_init-release_example =
    secure_fb_impl_init-release (λ n. n) all_well shown (λ n. (omega arith, omega arith)) refl

-- If the reference cannot be made, the buffer and its mapping are not given back.
left_behind :
    (secure_fb_impl_init (λ n. n) (record all_well { memref_create = negsuc 4 })).0
    ≡ started ∷ allocated 7 ∷ mapped 0x1000 1280000 ∷ unmapped 0 0 ∷ released 0 ∷ stopped ∷ []
unfolding secure_fb_impl_init init destroy fb_size
left_behind = refl
