-- ===== src/Libmem/Paging/Victim.antt =====
-- `find_victim_page` takes the page that was enlisted first.
use simple_32bit_os.Base.{ℕ, ◌≡◌, refl, ap, ◌∙◌, none, some, List, [], ◌∷◌, ◌++◌}
use simple_32bit_os.Mm.{enlist_pgn_node}
use simple_32bit_os.Libmem.Paging.{unlink_last, find_victim_page}

unlink_last-append : (x y : ℕ) (xs : List ℕ) → unlink_last x (xs ++ (y ∷ [])) ≡ (y, x ∷ xs)
unfolding unlink_last
unlink_last-append x y [] = refl
unlink_last-append x y (z ∷ zs) = rw (unlink_last-append z y zs)

pub find_victim_page-append :
    (x : ℕ) (xs : List ℕ) → find_victim_page (xs ++ (x ∷ [])) ≡ some (x, xs)
unfolding find_victim_page unlink_last
find_victim_page-append x [] = refl
find_victim_page-append x (y ∷ ys) = ap some (unlink_last-append y x ys)

-- The pages of a list enlisted one after the other.
pub enlist_all : List ℕ → List ℕ → List ℕ
enlist_all plist [] = plist
enlist_all plist (p ∷ ps) = enlist_all (enlist_pgn_node plist p) ps

enlist_all-append :
    (front : List ℕ) (x : ℕ) (ps : List ℕ)
    → enlist_all (front ++ (x ∷ [])) ps ≡ enlist_all front ps ++ (x ∷ [])
unfolding enlist_all enlist_pgn_node
enlist_all-append front x [] = refl
enlist_all-append front x (p ∷ ps) = enlist_all-append (p ∷ front) x ps

-- First in, first out: of the pages that were enlisted, in any number, the victim is the one that was
-- enlisted first, and the others stay enlisted in their order; with none enlisted there is no victim.
pub find_victim_page-fifo :
    (p : ℕ) (ps : List ℕ)
    → (find_victim_page (enlist_all [] (p ∷ ps)) ≡ some (p, enlist_all [] ps))
      × (find_victim_page (enlist_all [] []) ≡ none)
unfolding enlist_all enlist_pgn_node find_victim_page
find_victim_page-fifo p ps = (
  ap find_victim_page (enlist_all-append [] p ps) ∙ find_victim_page-append p (enlist_all [] ps),
  refl,
)
