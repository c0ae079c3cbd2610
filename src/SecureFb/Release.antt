-- ===== src/SecureFb/Release.antt =====
-- What the mock of the secure framebuffer gives out, and what it gives back.
use trusty_app_sample.Common.{
  Bool-cases, List, Option, [], ap, arith, inl, inr, is_neg, negsuc, none, pos, refl, some, subst,
  sym, ℕ, ℤ, ◌%◌, ◌*◌, ◌++◌, ◌+◌, ◌<◌, ◌^◌, ◌∙◌, ◌∷◌, ◌≡◌, ◌≤◌,
}
use trusty_app_sample.SecureFb.{
  Call, Calls, Entry, FbInfo, Status, allocate_buffer, allocated, closed, destroy, device_height,
  device_width, fb_ok, fb_size, get_fbs, init, invalid_request, keep_or_delete, map_buffer, mapped,
  memory_allocation, reference, referenced, released, secure_fb_impl_init, secure_fb_impl_release,
  shared_memory, started, stopped, uninitialized, unmapped,
}

-- What gives back what a call has taken; nothing else has to be given back.
abbrev undo : Call → List Call
undo started = stopped ∷ []
undo (allocated b) = released b ∷ []
undo (mapped a n) = unmapped a n ∷ []
undo (referenced h) = closed h ∷ []
undo _ = []

-- The calls undone, the last one first.
abbrev pub undone : List Call → List Call
undone [] = []
undone (x ∷ xs) = undone xs ++ undo x

-- The lines of the framebuffer are in its buffer.
abbrev pub FitsBuffer : FbInfo → Type 0
FitsBuffer info = info.line_stride * info.height ≤ info.size

-- If Init succeeds, the destructor undoes its calls, and the buffer has the size that was asked for.
abbrev IsUndone : (width height size : ℕ) → List Call → Entry → Status → Type 0
IsUndone width height size calls e status =
    status ≡ fb_ok
    → (destroy e ≡ undone calls)
      × (e.fb_info.size ≡ size)
      × (e.fb_info.height ≡ height)
      × (e.fb_info.line_stride ≡ 4 * width % 2 ^ 32)

module _ (round_up : ℕ → ℕ) (c : Calls) (width height : ℕ) where
  reference-IsUndone :
      (size buf base : ℕ) (rc : ℤ)
      → (let r = reference round_up c width height size buf base rc in
          IsUndone width height size r.0 r.1 r.2)
  unfolding reference destroy
  reference-IsUndone size buf base (negsuc e) h = cc
  reference-IsUndone size buf base (pos n) h = (refl, refl, refl, refl)

  map_buffer-IsUndone :
      (size buf : ℕ) (base : Option ℕ)
      → (let r = map_buffer round_up c width height size buf base in
          IsUndone width height size r.0 r.1 r.2)
  unfolding map_buffer
  map_buffer-IsUndone size buf none h = cc
  map_buffer-IsUndone size buf (some base) h = reference-IsUndone size buf base c.memref_create h

  allocate_buffer-IsUndone :
      (size : ℕ) (buf : Option ℕ)
      → (let r = allocate_buffer round_up c width height size buf in
          IsUndone width height size r.0 r.1 r.2)
  unfolding allocate_buffer
  allocate_buffer-IsUndone size none h = cc
  allocate_buffer-IsUndone size (some buf) h = map_buffer-IsUndone size buf (c.mmap size) h

  init-IsUndone :
      let r = init round_up c width height in
      IsUndone width height (fb_size round_up width height) r.0 r.1 r.2
  unfolding init
  init-IsUndone = elim (Bool-cases (is_neg c.start_rc)) [
    | inl bad ↦ rw bad (λ h. cc)
    | inr good ↦ rw good (
        allocate_buffer-IsUndone (fb_size round_up width height)
          (c.allocate (fb_size round_up width height)))
  ]

kept :
    (calls : List Call) (e e' : Entry) (status : Status)
    → (keep_or_delete calls e status).1 ≡ some e'
    → (status ≡ fb_ok) × (e ≡ e') × ((keep_or_delete calls e status).0 ≡ calls)
unfolding keep_or_delete
kept calls e e' fb_ok h = (refl, cc, refl)
kept calls e e' uninitialized h = cc
kept calls e e' memory_allocation h = cc
kept calls e e' shared_memory h = cc
kept calls e e' invalid_request h = cc

-- A framebuffer that is given out has all its lines in its buffer, and its release gives back
-- exactly what its set-up has taken, each with the values that were given and the last one first.
-- Whatever the calls return, for a rounding that adds less than 2^20 bytes and takes none away.
pub secure_fb_impl_init-release :
    (round_up : ℕ → ℕ) (c : Calls) (e : Entry)
    → ((n : ℕ) → (n ≤ round_up n) × (round_up n < n + 2 ^ 20))
    → (secure_fb_impl_init round_up c).1 ≡ some e
    → ((secure_fb_impl_release e).0 ≡ undone (secure_fb_impl_init round_up c).0)
      × FitsBuffer ((get_fbs e).1).fb_info
unfolding secure_fb_impl_init secure_fb_impl_release get_fbs fb_size
secure_fb_impl_init-release round_up c e rounds h =
    let done = init round_up c device_width device_height in
    let k = kept done.0 done.1 e done.2 h in
    let u = init-IsUndone round_up c device_width device_height k.0 in
    let fits = rounds (4 * device_width * device_height) in
    subst (λ x. (destroy x ≡ undone (secure_fb_impl_init round_up c).0) × FitsBuffer x.fb_info) k.1
      (u.0 ∙ ap undone (sym k.2), rw (u.1, u.2, u.3) (omega (arith, fits.0, fits.1)))
