-- ===== src/Libk/Printf/Tests.antt =====
-- A number and a format.
use n00b_os.Prelude.{◌≡◌, inl, inr, refl, true, [], ◌∷◌, arith}
use n00b_os.Libk.Printf.{number, printed, printf_u, printf}
use n00b_os.Libk.Printf.Number.{ReadsAs, printf_u-reads}
use n00b_os.Libk.Printf.Count.{IsCounted, printf-IsCounted}

printf_u-reads_example : ReadsAs (printf_u 1234 10 true) 10 1234
printf_u-reads_example = printf_u-reads 1234 10 true (inr (inl refl)) (omega arith)

-- `printf("%x!", 255)`
printf-hex : printf (37 ∷ 120 ∷ 33 ∷ []) (number 255 ∷ []) ≡ printed 3 (102 ∷ 102 ∷ 33 ∷ [])
unfolding printf
printf-hex = refl

printf-IsCounted_test : IsCounted (printf (37 ∷ 120 ∷ 33 ∷ []) (number 255 ∷ []))
printf-IsCounted_test = printf-IsCounted (37 ∷ 120 ∷ 33 ∷ []) (number 255 ∷ [])
