-- ===== src/LocalStorage/Held.antt =====
-- internal/adapter/storage/local/local_storage.go: which files are there after a call.
use scoreplay_media_api.Prelude.{
  ◌≡◌, ◌≢◌, refl, sym, ◌∙◌, inl, inr, true, [], ◌∷◌, Text, text_eq, text_eq→eq, text_eq_refl, any,
  filter, arith, Bool-cases,
}
use scoreplay_media_api.Result.{ok}
use scoreplay_media_api.Domain.{Uuid}
use scoreplay_media_api.LocalStorage.{
  Files, holds, remove_file, write_file, Disk, clean_up, save_at,
}

pub holds-remove_file :
    (path q : Text) (files : Files)
    → q ≢ path
    → holds q files ≡ true
    → holds q (remove_file path files) ≡ true
unfolding holds remove_file any filter
holds-remove_file path q [] ne h = h
holds-remove_file path q (f ∷ files) ne h = elim (Bool-cases (text_eq f.0 path)) [
  | inl e ↦ elim (Bool-cases (text_eq f.0 q)) [
    | inl k ↦ absurd (ne (sym (text_eq→eq f.0 q k) ∙ text_eq→eq f.0 path e))
    | inr k ↦ rw e (holds-remove_file path q files ne (rw k at h))
  ]
  | inr e ↦ elim (Bool-cases (text_eq f.0 q)) [
    | inl k ↦ rw (e, any) (rw k refl)
    | inr k ↦ rw (e, any) (rw k (holds-remove_file path q files ne (rw k at h)))
  ]
]

pub holds_written :
    (path content : Text) (files : Files) → holds path (write_file path content files) ≡ true
unfolding holds write_file any
holds_written path content files = rw (text_eq_refl path) refl

pub holds-write_file :
    (path content q : Text) (files : Files)
    → q ≢ path
    → holds q files ≡ true
    → holds q (write_file path content files) ≡ true
unfolding holds write_file any
holds-write_file path content q files ne h =
    let kept = holds-remove_file path q files ne h in ground arith

module _ (d : Disk) (path content : Text) (files : Files) where
  cleaned :
      (part q : Text)
      → q ≢ path
      → holds q files ≡ true
      → holds q (clean_up d path (write_file path part files)) ≡ true
  cleaned part q ne h = elim (Bool-cases d.remove_fails) [
    | inl e ↦ rw e (holds-write_file path part q files ne h)
    | inr e ↦ rw e (holds-remove_file path q _ ne (holds-write_file path part q files ne h))
  ]

  -- A call of Save at a path leaves the other files, whether it fails or not.
  pub holds-save_at :
      (show : Uuid → Text) (q : Text)
      → q ≢ path
      → holds q files ≡ true
      → holds q (save_at show d path content files).1 ≡ true
  unfolding save_at
  holds-save_at show q ne h =
      let copied = cleaned d.written q ne h in
      let synced = cleaned content q ne h in
      let stored = holds-write_file path content q files ne h in ground arith

  -- The path that a success returns is the one that was asked for, and its file is there.
  pub save_at_ok :
      (show : Uuid → Text) (p : Text)
      → (save_at show d path content files).0 ≡ ok p
      → (p ≡ path) × (holds path (save_at show d path content files).1 ≡ true)
  unfolding save_at
  save_at_ok show p h =
      let stored = holds_written path content files in (ground arith, ground arith)
