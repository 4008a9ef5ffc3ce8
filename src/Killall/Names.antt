-- ===== src/Killall/Names.antt =====
-- `strcmp` on texts.
use simple_32bit_os.Base.{
  ℕ, zero, suc, ◌≡◌, refl, sym, ◌∙◌, ap, ap₂, true, List, [], ◌∷◌, ==_self, ◌↔◌, leb, length, take,
  arith,
}
use simple_32bit_os.Killall.{same_text}

pub same_text_self : (xs : List ℕ) → same_text xs xs ≡ true
unfolding same_text
same_text_self [] = refl
same_text_self (x ∷ xs) = rw (==_self x) (same_text_self xs)

same_text-eq : (xs ys : List ℕ) → same_text xs ys ≡ true → xs ≡ ys
unfolding same_text
same_text-eq [] [] e = refl
same_text-eq [] (y ∷ ys) e = cc
same_text-eq (x ∷ xs) [] e = cc
same_text-eq (x ∷ xs) (y ∷ ys) e =
    ap₂ (λ z zs. z ∷ zs) (ground arith) (same_text-eq xs ys (ground arith))

pub same_text_iff : (xs ys : List ℕ) → (same_text xs ys ≡ true) ↔ (xs ≡ ys)
same_text_iff xs ys =
    (same_text-eq xs ys, λ e. ap (λ zs. same_text xs zs) (sym e) ∙ same_text_self xs)

-- A text that was cut off is another text.
pub same_text-take : (n : ℕ) (xs : List ℕ) → same_text (take n xs) xs ≡ leb (length xs) n
unfolding same_text
same_text-take zero [] = refl
same_text-take zero (x ∷ xs) = ground arith
same_text-take (suc n) [] = ground arith
same_text-take (suc n) (x ∷ xs) = rw (==_self x) (same_text-take n xs ∙ ground arith)
