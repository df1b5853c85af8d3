-- ===== src/StorageFixtures.antt =====
-- Names that are longer than every path that is there, and a storage in memory that draws them.
use scoreplay_media_api.Prelude.{
  ◌≤◌, ◌≡◌, refl, ap, inl, inr, true, false, [], ◌∷◌, ◌++◌, Text, text_eq, text_eq→eq, text_eq_refl,
  any, length, length-append, arith, Bool-cases,
}
use mathlib.Core.Path.{subst}
use scoreplay_media_api.Result.{Result, ok}
use scoreplay_media_api.LocalStorage.{Files, holds, remove_file}
use scoreplay_media_api.LocalStorage.Held.{holds-remove_file}
use scoreplay_media_api.Service.{FileStorage}
use scoreplay_media_api.Service.Consistency.{IsStorage}

abbrev pub fresh_path : Files → Text
fresh_path [] = 1 ∷ []
fresh_path (f ∷ files) = f.0 ++ fresh_path files

abbrev pub memory : FileStorage
memory = record {
  save = λ n ctx content ext files. (ok (fresh_path files), (fresh_path files, content) ∷ files);
  delete = λ n path files. (ok tt, remove_file path files);
}

pub longer_absent :
    (p : Text) (files : Files) → length (fresh_path files) ≤ length p → holds p files ≡ false
unfolding holds any
longer_absent p [] h = refl
longer_absent p (f ∷ files) h =
    let sizes = length-append f.0 (fresh_path files) in
    let some_left = nonempty files in
    let rest = longer_absent p files (omega (arith, sizes)) in
    elim (Bool-cases (text_eq f.0 p)) [
      | inl e ↦
          let q = ap length (text_eq→eq f.0 p e) in absurd (omega (arith, sizes, some_left, q))
      | inr e ↦ rw e rest
    ]
  where
    nonempty : (fs : Files) → 1 ≤ length (fresh_path fs)
    nonempty [] = omega arith
    nonempty (f ∷ fs) =
        let sizes = length-append f.0 (fresh_path fs) in omega (arith, sizes, nonempty fs)

holds_head : (p content : Text) (files : Files) → holds p ((p, content) ∷ files) ≡ true
unfolding holds any
holds_head p content files = rw (text_eq_refl p) refl

holds_more :
    (p content q : Text) (files : Files)
    → holds q files ≡ true
    → holds q ((p, content) ∷ files) ≡ true
unfolding holds any
holds_more p content q files h = ground arith

saved_path : (p q : Text) → ◌≡◌ {A = Result Text} (ok p) (ok q) → p ≡ q
saved_path p q e = cc

new_path :
    (content path : Text) (files : Files)
    → fresh_path files ≡ path
    → (holds path files ≡ false) × (holds path ((fresh_path files, content) ∷ files) ≡ true)
new_path content path files e =
    subst (λ p. (holds p files ≡ false) × (holds p ((fresh_path files, content) ∷ files) ≡ true)) e
      (
        longer_absent (fresh_path files) files (omega arith),
        holds_head (fresh_path files) content files,
      )

pub memory-IsStorage : IsStorage memory
memory-IsStorage = record {
  save_new = λ n ctx content ext files path e.
      new_path content path files (saved_path (fresh_path files) path e);
  save_keeps = λ n ctx content ext files q h. holds_more (fresh_path files) content q files h;
  delete_keeps = λ n path files q ne h. holds-remove_file path q files ne h;
}
