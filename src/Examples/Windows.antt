-- ===== src/Examples/Windows.antt =====
-- A conversation whose first result of a tool is too long for the budget.
use Prim.Native.String.{count, [] as no_text, ◌∷◌ as char}
use text.Mathlib.TextLemmas.{length-cons}
use phylum.Common.{
  ℕ, zero, suc, ◌≤◌, ◌⊎◌, String, ◌≡◌, refl, false, none, some, List, [], ◌∷◌, length, get_elem?,
  arith,
}
use phylum.ContextWindow.{
  Message, Texts, Manager, Json, null, string, array, item, no_items, placeholder, total_tokens,
  token_budget, compress_if_needed, compact_value,
}
use phylum.ContextWindow.Indices.{IsOld}
use phylum.ContextWindow.Window.{compress_if_needed-keeps, compress_if_needed-fits}
use phylum.ContextWindow.Sizes.{IsCompact, compact_value-IsCompact}

abbrev take_chars : ℕ → String → String
take_chars zero s = no_text
take_chars (suc n) no_text = no_text
take_chars (suc n) (char c s) = char c (take_chars n s)

takes : (n : ℕ) (s : String) → count (take_chars n s) ≤ n
takes zero s = omega arith
takes (suc n) no_text = omega arith
takes (suc n) (char c s) = omega (arith, length-cons c (take_chars n s), takes n s)

abbrev texts : Texts
texts = record {
  size = count;
  take_text = take_chars;
  rstrip = λ s. s;
  lower = λ s. s;
  join = λ sep ss. elim ss [ [] ↦ "" | s ∷ rest ↦ s ];
  show = λ n. "n";
  paths = λ s. [];
  numbers = λ s. [];
  key_values = λ s. [];
  has_path = λ s. false;
  loads = λ s. none;
  dumps = λ v. "{}";
  str_of = λ v. "{}";
}

abbrev manager : Manager
manager = record { max_context_tokens = 30; reserve_for_response = 10; recency_window = 1 }

abbrev of_role : String → String → Message
of_role role content = record {
  role = role;
  tool_call_id = "c";
  content = content;
  arguments = [];
  thinking = [];
}

abbrev messages : List Message
messages =
    of_role "tool" "a long result of a tool that is not needed any more, and that goes on and on"
    ∷ of_role "user" "hi"
    ∷ of_role "tool" "ok"
    ∷ []

compress_if_needed-keeps_example :
    (length (compress_if_needed texts manager messages) ≡ length messages)
    × ((i : ℕ)
        → ¬ IsOld manager.recency_window messages i
        → get_elem? (compress_if_needed texts manager messages) i ≡ get_elem? messages i)
compress_if_needed-keeps_example = compress_if_needed-keeps texts manager messages

compress_if_needed-fits_example :
    (total_tokens texts (compress_if_needed texts manager messages) ≤ token_budget manager)
    ⊎ ((i : ℕ) (m : Message)
        → IsOld manager.recency_window messages i
        → get_elem? messages i ≡ some m
        → get_elem? (compress_if_needed texts manager messages) i ≡ some (placeholder m))
compress_if_needed-fits_example = compress_if_needed-fits texts manager messages

drops_first :
    compress_if_needed texts manager messages
    ≡ placeholder (of_role "tool" "") ∷ of_role "user" "hi" ∷ of_role "tool" "ok" ∷ []
unfolding compress_if_needed
drops_first = refl

abbrev six : Json
six =
    array (
      item (string "a")
        (item null (item null (item null (item null (item (string "b") no_items))))))

compact_value-IsCompact_example : IsCompact texts "rows" (compact_value texts "rows" six)
compact_value-IsCompact_example = compact_value-IsCompact texts takes "rows" six
