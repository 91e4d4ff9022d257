-- ===== src/Context/Traits.antt =====
-- include/co_net/traits.hpp: the concept HasDirectFd, over C++ types as far as it looks at them.
use co_net.Base.{ℕ, ◌≡◌, refl, Bool, true, false, ◌||◌, List, [], ◌∷◌}

pub data CppType : Type 0 where
  direct_socket tcp_connection : CppType
  other : ℕ → CppType
  const_of volatile_of lvalue_ref rvalue_ref : CppType → CppType

-- `std::remove_cvref_t`: a reference, and then the qualifiers of what it refers to.
unfoldable pub remove_cv : CppType → CppType
remove_cv (const_of t) = remove_cv t
remove_cv (volatile_of t) = remove_cv t
remove_cv t = t

unfoldable pub remove_cvref : CppType → CppType
unfolding remove_cv
remove_cvref (lvalue_ref t) = remove_cv t
remove_cvref (rvalue_ref t) = remove_cv t
remove_cvref t = remove_cv t

unfoldable pub is_direct_socket : CppType → Bool
is_direct_socket direct_socket = true
is_direct_socket _ = false

unfoldable pub is_tcp_connection : CppType → Bool
is_tcp_connection tcp_connection = true
is_tcp_connection _ = false

-- `std::disjunction_v`
any_is : (CppType → Bool) → List CppType → Bool
any_is test [] = false
any_is test (t ∷ ts) = test (remove_cvref t) || any_is test ts

unfoldable pub has_direct_fd : List CppType → Bool
unfolding any_is remove_cvref is_direct_socket is_tcp_connection
has_direct_fd ts = any_is is_direct_socket ts || any_is is_tcp_connection ts

-- The lines of test/direct_traits.cpp.
direct_traits :
    (has_direct_fd (other 0 ∷ other 1 ∷ []) ≡ false)
    × (has_direct_fd (lvalue_ref tcp_connection ∷ other 0 ∷ []) ≡ true)
    × (has_direct_fd (rvalue_ref tcp_connection ∷ other 0 ∷ []) ≡ true)
    × (has_direct_fd (other 0 ∷ tcp_connection ∷ []) ≡ true)
    × (has_direct_fd (tcp_connection ∷ direct_socket ∷ []) ≡ true)
    × (has_direct_fd (other 2 ∷ direct_socket ∷ []) ≡ true)
unfolding has_direct_fd
direct_traits = (refl, refl, refl, refl, refl, refl)
