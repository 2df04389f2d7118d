-- ===== src/Kernel/Vfs/Tests.antt =====
-- One block of open files with a place that is free.
use n00b_os.Prelude.{false, ◌≡◌, ◌⊎◌, refl, none, some, [], ◌∷◌}
use n00b_os.Kernel.Vfs.{OpenFiles, put_file_handle, remove_file_handle}
use n00b_os.Kernel.Vfs.Handles.{is_open, remove_file_handle-put_file_handle}

abbrev files : OpenFiles
files = (8 ∷ 0 ∷ 9 ∷ 0 ∷ 0 ∷ 0 ∷ 0 ∷ []) ∷ []

put_file_handle-second : put_file_handle files 5 ≡ some ((8 ∷ 5 ∷ 9 ∷ 0 ∷ 0 ∷ 0 ∷ 0 ∷ []) ∷ [])
unfolding put_file_handle
put_file_handle-second = refl

remove_file_handle-put_file_handle_example :
    ((is_open 0 files ≡ false) × (put_file_handle files 5 ≡ none))
    ⊎ ((fs : OpenFiles) × (put_file_handle files 5 ≡ some fs)
        × (remove_file_handle fs 5 ≡ some files))
remove_file_handle-put_file_handle_example = remove_file_handle-put_file_handle files 5 refl
