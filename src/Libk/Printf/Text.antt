-- ===== src/Libk/Printf/Text.antt =====
-- What the format "%s " prints.
use n00b_os.Prelude.{ℕ, ◌+◌, ◌≡◌, refl, List, [], ◌∷◌, ◌++◌, length, codes}
use n00b_os.Libk.Printf.{printed, text, convert, convert_argument, printf}

pub printf_word :
    (cs : List ℕ) → printf (codes "%s ") (text cs ∷ []) ≡ printed (length cs + 1) (cs ++ (32 ∷ []))
unfolding printf convert convert_argument
printf_word cs = refl
