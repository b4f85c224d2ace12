-- ===== src/FdManager/Tests.antt =====
-- A vector of two places.
use mnser.Common.{ℕ, [], ◌∷◌, true, if◌then◌else◌, none, some, ◌==◌, ◌≡◌, refl, arith}
use mnser.FdManager.{FdManager, new_fd_ctx, set_timeout, get_timeout, at, resize, create, get_ctx}
use mnser.FdManager.Vector.{get_ctx_lem}

abbrev manager : FdManager
manager = record { ctx = λ a. new_fd_ctx none; datas = some 40 ∷ none ∷ [] }

grows :
    (get_ctx manager (some 4) true 41 (some true)).1.datas
    ≡ some 40 ∷ none ∷ none ∷ none ∷ some 41 ∷ none ∷ []
unfolding get_ctx create resize
grows = refl

timeouts : get_timeout (set_timeout (new_fd_ctx none) true 5) true ≡ 5
unfolding get_timeout set_timeout
timeouts = refl

get_ctx_example :
    ((get_ctx manager (some 4) true 41 (some true)).0 ≡ some 41)
    × ((g : ℕ)
        → at (get_ctx manager (some 4) true 41 (some true)).1.datas g
          ≡ (if g == 4 then some 41 else at manager.datas g))
    × ((b : ℕ)
        → (get_ctx manager (some 4) true 41 (some true)).1.ctx b
          ≡ (if b == 41 then new_fd_ctx (some true) else new_fd_ctx none))
get_ctx_example = get_ctx_lem manager 4 41 (some true) (omega arith)
