-- ===== src/Tests/Lists.antt =====
-- A run of calls on a dynamic array of numbers.
use uhcr.Runtime.ListRuntime.Defs.{PyEq}
use uhcr.Prelude.{
  nat_beq, ℕ, ◌≡◌, refl, Bool, true, ◌↔◌, List, [], ◌∷◌, arith, pos, negsuc, nat_eq, take, drop, ok,
  err, ◌-◌,
}
use uhcr.Runtime.ListRuntime.Defs.{RuntimeList, append, create_list, slice, equals, index_error}
use uhcr.Runtime.ListRuntime.Layout.{Represents}
use uhcr.Runtime.ListRuntime.Calls.{
  ListCall, item, push, take_last, put, delete, empty, answers, perform, respond,
}
use uhcr.Runtime.ListRuntime.Refines.{answers-create_list}
use uhcr.Runtime.ListRuntime.Slices.{IsBound, Alike, slice-Represents, equals-Represents}

instance abbrev nat_py : PyEq ℕ
nat_py = record { eq = nat_beq }

abbrev calls : List (ListCall ℕ)
calls =
    push 7
    ∷ push 8
    ∷ put (pos 1) 9
    ∷ item (pos 1)
    ∷ item (negsuc 0)
    ∷ delete 7
    ∷ take_last
    ∷ delete 5
    ∷ empty
    ∷ take_last
    ∷ []

answers-create_list_example :
    answers (perform 0) (create_list 0 "i32" 1) calls ≡ answers respond [] calls
answers-create_list_example = answers-create_list 0 "i32" 1 calls (omega arith)

abbrev three : RuntimeList ℕ
three = record { element_type = "i32"; capacity = 4; length = 3; data_cells = 7 ∷ 9 ∷ 8 ∷ 0 ∷ [] }

three-Represents : Represents three (7 ∷ 9 ∷ 8 ∷ [])
three-Represents = record {
  spare = 0 ∷ [];
  layout = refl;
  sized = refl;
  room = refl;
  growable = omega arith;
}

slice-Represents_example :
    (first : ℕ) × (last : ℕ) × IsBound (negsuc 1) 3 first
    × IsBound (pos 5) 3 last
    × (l : RuntimeList ℕ) × (slice 0 three (negsuc 1) (pos 5) ≡ ok l)
    × Represents l (take (last - first) (drop first (7 ∷ 9 ∷ 8 ∷ [])))
slice-Represents_example =
    slice-Represents 0 three (7 ∷ 9 ∷ 8 ∷ []) (negsuc 1) (pos 5) three-Represents

equals-Represents_example :
    (b : Bool) × (equals three three ≡ ok b)
    × ((b ≡ true) ↔ Alike {A = ℕ} (7 ∷ 9 ∷ 8 ∷ []) (7 ∷ 9 ∷ 8 ∷ []))
equals-Represents_example =
    equals-Represents three three (7 ∷ 9 ∷ 8 ∷ []) (7 ∷ 9 ∷ 8 ∷ []) three-Represents
      three-Represents

-- With capacity 0 doubling gives no room, and the first append raises.
zero_capacity :
    answers {A = ℕ} (perform 0) (create_list 0 "i32" 0) (push 7 ∷ []) ≡ err index_error ∷ []
unfolding answers perform create_list append
zero_capacity = refl
