-- ===== src/Libk/Ctype.antt =====
-- libk/src/all/ctype: the classes of characters.
use n00b_os.Prelude.{ℕ, Bool, ◌||◌, ◌&&◌, leb, ◌==◌}

pub isblank : ℕ → Bool
isblank ch = ch == 0x20 || ch == 0x09

pub isdigit : ℕ → Bool
isdigit ch = leb 48 ch && leb ch 57

pub isspace : ℕ → Bool
isspace ch = (leb 0x09 ch && leb ch 0x0D) || ch == 0x20

pub isxdigit : ℕ → Bool
isxdigit ch = (leb 48 ch && leb ch 57) || (leb 97 ch && leb ch 102) || (leb 65 ch && leb ch 70)
