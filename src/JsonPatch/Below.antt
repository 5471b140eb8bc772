-- ===== src/JsonPatch/Below.antt =====
-- Patches appended below several prefixes: which items belong to which.
use mathlib.Core.List.{append_assoc, append-nil}
use rt_5gc_service_consumers.Common.{
  Run, Bool, true, false, List, [], ◌∷◌, ◌++◌, Option, none, some, Str, ok, fault, ◌>>=◌, >>=-eq-ok,
  if◌then◌else◌, is_some, Bool-cases, Option-cases, inl, inr, ◌≡◌, refl, sym, ap, ◌∙◌, arith,
}
use rt_5gc_service_consumers.JsonPatch.{
  PatchItem, is_root, prefixed_path, json_patch_new_copy_with_prefix, made, copy_all,
  json_patches_append_list,
}
use rt_5gc_service_consumers.JsonPatch.Rfc6902.{strip, strip-append}

abbrev is_below : Str → Option Str → Bool
is_below member none = false
is_below member (some path) = is_some (strip member path)

-- The items of a patch that act on a member or below it.
abbrev pub items_below : Str → List PatchItem → List PatchItem
items_below member [] = []
items_below member (p ∷ ps) =
    if is_below member p.path then p ∷ items_below member ps else items_below member ps

-- No path that begins with the second prefix lies below the first.
abbrev pub Apart : Str → Str → Type 0
Apart member prefix = (s : Str) → strip member (prefix ++ s) ≡ none

-- Every item has a path that begins with the prefix.
abbrev pub Belong : Str → List PatchItem → Type 0
Belong prefix [] = Unit {0}
Belong prefix (p ∷ ps) = ((s : Str) × (p.path ≡ some (prefix ++ s))) × Belong prefix ps

pub items_below-append :
    (member : Str) (ps qs : List PatchItem)
    → items_below member (ps ++ qs) ≡ items_below member ps ++ items_below member qs
items_below-append member [] qs = refl
items_below-append member (p ∷ ps) qs = elim (Bool-cases (is_below member p.path)) [
  | inl e ↦ rw e (ap (λ l. p ∷ l) (items_below-append member ps qs))
  | inr e ↦ rw e (items_below-append member ps qs)
]

pub items_below-Belong :
    (prefix : Str) (ps : List PatchItem) → Belong prefix ps → items_below prefix ps ≡ ps
items_below-Belong prefix [] h = refl
items_below-Belong prefix (p ∷ ps) ((s, e), h) =
    let here : is_below prefix p.path ≡ true = rw (e, strip-append prefix s) refl in
    rw here (ap (λ l. p ∷ l) (items_below-Belong prefix ps h))

pub items_below-Apart :
    (member prefix : Str) (ps : List PatchItem)
    → Apart member prefix
    → Belong prefix ps
    → items_below member ps ≡ []
items_below-Apart member prefix [] a h = refl
items_below-Apart member prefix (p ∷ ps) a ((s, e), h) =
    let not_here : is_below member p.path ≡ false = rw (e, a s) refl in
    rw not_here (items_below-Apart member prefix ps a h)

copy-path :
    (prefix : Str) (p q : PatchItem)
    → json_patch_new_copy_with_prefix p (some prefix) ≡ ok q
    → (s : Str) × (q.path ≡ some (prefix ++ s))
unfolding json_patch_new_copy_with_prefix prefixed_path
copy-path prefix p q h = elim (Option-cases p.path) [
  | inl e ↦ ([], ground (arith, e, append-nil prefix))
  | inr (path, e) ↦ elim (Bool-cases (is_root path)) [
    | inl r ↦ ([], ground (arith, e, r, append-nil prefix))
    | inr r ↦ (path, ground (arith, e, r))
  ]
]

behind : List PatchItem → List PatchItem → Run (List PatchItem)
behind dst cs = ok (dst ++ cs)

behind_both :
    (dst : List PatchItem) (q : PatchItem) (run : Run (List PatchItem))
    → (run >>= behind (dst ++ q ∷ [])) ≡ ((run >>= behind (q ∷ [])) >>= behind dst)
unfolding behind
behind_both dst q (ok cs) = ap ok (append_assoc dst (q ∷ []) cs)
behind_both dst q fault = refl

-- What is copied does not depend on what is there before.
copy_all-from :
    (prefix : Option Str) (dst src : List PatchItem)
    → copy_all dst src prefix ≡ (copy_all [] src prefix >>= behind dst)
unfolding copy_all behind
copy_all-from prefix dst [] = ap ok (sym (append-nil dst))
copy_all-from prefix dst (p ∷ src) =
    one (json_patch_new_copy_with_prefix p prefix) (λ d. copy_all-from prefix d src)
  where
    one :
        (run : Run PatchItem)
        → ((d : List PatchItem) → copy_all d src prefix ≡ (copy_all [] src prefix >>= behind d))
        → (run >>= (λ q. copy_all (dst ++ q ∷ []) src prefix))
          ≡ ((run >>= (λ q. copy_all (q ∷ []) src prefix)) >>= behind dst)
    one fault rest = refl
    one (ok q) rest =
        rest (dst ++ q ∷ [])
        ∙ behind_both dst q (copy_all [] src prefix)
        ∙ ap (λ r. r >>= behind dst) (sym (rest (q ∷ [])))

copy_all-Belong :
    (prefix : Str) (src cs : List PatchItem)
    → copy_all [] src (some prefix) ≡ ok cs
    → Belong prefix cs
unfolding copy_all behind
copy_all-Belong prefix [] cs h = let empty : cs ≡ [] = cc in rw empty tt
copy_all-Belong prefix (p ∷ src) cs h =
    let (q, e, k) = >>=-eq-ok (json_patch_new_copy_with_prefix p (some prefix)) _ h in
    let from_one = rw (copy_all-from (some prefix) (q ∷ []) src) at k in
    let (more, m, all) = >>=-eq-ok (copy_all [] src (some prefix)) (behind (q ∷ [])) from_one in
    let whole : cs ≡ q ∷ more = cc in
    rw whole (copy-path prefix p q e, copy_all-Belong prefix src more m)

-- Patches appended below a prefix stand behind those that were there; they are what is appended to
-- none, and every path begins with the prefix.
pub append-Belong :
    (dst src q : Option (List PatchItem)) (prefix : Str)
    → json_patches_append_list dst src (some prefix) ≡ ok q
    → (r : Option (List PatchItem)) × (json_patches_append_list none src (some prefix) ≡ ok r)
      × (made q ≡ made dst ++ made r)
      × Belong prefix (made r)
unfolding json_patches_append_list behind
append-Belong dst none q prefix h =
    let same : dst ≡ q = cc in (none, refl, rw same (sym (append-nil (made q))), tt)
append-Belong dst (some src) q prefix h =
    let (all, e, k) = >>=-eq-ok (copy_all (made dst) src (some prefix)) _ h in
    let split = rw (copy_all-from (some prefix) (made dst) src) at e in
    let (cs, m, n) = >>=-eq-ok (copy_all [] src (some prefix)) (behind (made dst)) split in
    (some cs, rw m refl, ground (arith, k, n), copy_all-Belong prefix src cs m)
