-- ===== src/SqlService/Separated.antt =====
-- Texts whose parts are separated, in sql_service.h: a separator is put behind every part, and the last
-- one is taken away again.
use million.Prelude.{ℕ, ◌≡◌, List, [], ◌∷◌, ◌++◌, refl, ap, ◌∙◌, sym}
use mathlib.Core.List.{append_assoc, append-nil}
use million.SqlService.{Token, name, comma, newline, pop_back, pop_comma}

abbrev pub name_part : ℕ → List Token
name_part n = name n ∷ []

-- Parts with a separator between them, and with one behind each.
unfoldable pub separated : List Token → List (List Token) → List Token
separated sep [] = []
separated sep (d ∷ []) = d
separated sep (d ∷ e ∷ ds) = d ++ (sep ++ separated sep (e ∷ ds))

unfoldable pub ended : List Token → List (List Token) → List Token
ended sep [] = []
ended sep (d ∷ ds) = d ++ (sep ++ ended sep ds)

pub ended-separated :
    (sep d : List Token) (ds : List (List Token))
    → ended sep (d ∷ ds) ≡ separated sep (d ∷ ds) ++ sep
unfolding ended separated
ended-separated sep d [] = ap (λ (t : List Token). d ++ t) (append-nil sep)
ended-separated sep d (e ∷ ds) =
    ap (λ (t : List Token). d ++ (sep ++ t)) (ended-separated sep e ds) ∙ simp append_assoc

pub pop_back-append : (xs : List Token) (t : Token) → pop_back (xs ++ t ∷ []) ≡ xs
unfolding pop_back
pop_back-append [] t = refl
pop_back-append (x ∷ []) t = refl
pop_back-append (x ∷ y ∷ xs) t = ap (λ (r : List Token). x ∷ r) (pop_back-append (y ∷ xs) t)

pub pop_comma-append : (xs : List Token) → pop_comma (xs ++ comma ∷ []) ≡ xs
unfolding pop_comma
pop_comma-append [] = refl
pop_comma-append (x ∷ []) = refl
pop_comma-append (x ∷ y ∷ xs) = ap (λ (r : List Token). x ∷ r) (pop_comma-append (y ∷ xs))

-- After a beginning, the last comma is taken away from parts that end with one each.
pub pop_comma-ended :
    (begin d : List Token) (ds : List (List Token))
    → pop_comma (begin ++ ended (comma ∷ []) (d ∷ ds)) ≡ begin ++ separated (comma ∷ []) (d ∷ ds)
pop_comma-ended begin d ds =
    let text = separated (comma ∷ []) (d ∷ ds) in
    ap (λ (t : List Token). pop_comma (begin ++ t)) (ended-separated (comma ∷ []) d ds)
    ∙ ap pop_comma (sym (append_assoc begin text (comma ∷ [])))
    ∙ pop_comma-append (begin ++ text)

-- The same with a line end behind each comma.
pub pop_back-ended :
    (d : List Token) (ds : List (List Token))
    → pop_back (pop_back (ended (comma ∷ newline ∷ []) (d ∷ ds)))
      ≡ separated (comma ∷ newline ∷ []) (d ∷ ds)
pop_back-ended d ds =
    let text = separated (comma ∷ newline ∷ []) (d ∷ ds) in
    ap (λ (t : List Token). pop_back (pop_back t)) (ended-separated (comma ∷ newline ∷ []) d ds)
    ∙ ap (λ (t : List Token). pop_back (pop_back t))
        (sym (append_assoc text (comma ∷ []) (newline ∷ [])))
    ∙ ap pop_back (pop_back-append (text ++ comma ∷ []) newline)
    ∙ pop_back-append text comma
