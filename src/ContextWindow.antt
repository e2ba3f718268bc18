-- ===== src/ContextWindow.antt =====
-- core/context_window.py: `ContextWindowManager`. A message's content is a text, which it is for the
-- results of tools; a list of blocks counts as the text that `json.dumps` makes of it. `json`, `re`
-- and the slices of `str` are given by a `Texts`.
pub mod Indices
pub mod Window
pub mod Sizes
use phylum.Common.{
  ℕ, zero, suc, ◌+◌, ◌-◌, ◌/◌, String, Bool, true, false, not, Option, none, some, List, [], ◌∷◌,
  ◌++◌, ◌&&◌, ◌||◌, ◌==◌, if◌then◌else◌, ltb, leb, one_of, length, take, get_elem?, map, filter,
  modify,
}
use Prim.Native.Nat.{max}
use text.Mathlib.Text.{starts_with}
use Prim.Native.String

-- A message: `arguments` are those of its tool calls, `thinking` the texts of its thinking blocks.
pub record Message : Type 0 where
  pub role : String
  pub tool_call_id : String
  pub content : String
  pub arguments : List String
  pub thinking : List String

-- What `json.loads` gives. A number is kept as its text.
mutual
  pub data Json : Type 0 where
    null : Json
    boolean : Bool → Json
    number : String → Json
    string : String → Json
    array : Items → Json
    object : Fields → Json

  pub data Items : Type 0 where
    no_items : Items
    item : Json → Items → Items

  pub data Fields : Type 0 where
    no_fields : Fields
    field : String → Json → Fields → Fields

-- `take_text n s` is `s[:n]`; the three searches are `finditer` of the patterns of the class, and
-- `has_path` is `_PATH_RE.search`.
pub record Texts : Type 0 where
  pub size : String → ℕ
  pub take_text : ℕ → String → String
  pub rstrip : String → String
  pub lower : String → String
  pub join : String → List String → String
  pub show : ℕ → String
  pub paths : String → List String
  pub numbers : String → List String
  pub key_values : String → List String
  pub has_path : String → Bool
  pub loads : String → Option Json
  pub dumps : Json → String
  pub str_of : Json → String

pub record Manager : Type 0 where
  pub max_context_tokens : ℕ
  pub reserve_for_response : ℕ
  pub recency_window : ℕ

-- A budget below zero is as good as zero: no list of messages but the empty one fits either.
unfoldable pub token_budget : Manager → ℕ
token_budget m = m.max_context_tokens - m.reserve_for_response

abbrev pub chars_per_token : ℕ
chars_per_token = 4

abbrev pub is_tool : Message → Bool
is_tool m = m.role == "tool"

-- The indices of the results of tools, from index `n` on.
unfoldable pub tool_indices : ℕ → List Message → List ℕ
tool_indices n [] = []
tool_indices n (m ∷ ms) = let rest = tool_indices (n + 1) ms in if is_tool m then n ∷ rest else rest

unfoldable pub compressible_tool_indices : Manager → List Message → List ℕ
unfolding tool_indices
compressible_tool_indices g ms =
    let indices = tool_indices 0 ms in
    if leb (length indices) g.recency_window
    then []
    else take (length indices - g.recency_window) indices

abbrev pub placeholder : Message → Message
placeholder m = record {
  role = "tool";
  tool_call_id = m.tool_call_id;
  content = "{\"_summarized\": true, \"note\": \"result dropped to fit context window\"}";
  arguments = [];
  thinking = [];
}

abbrev pub preserve_keys : List String
preserve_keys =
    "path" ∷ "file" ∷ "filename" ∷ "filepath" ∷ "output_path" ∷ "url" ∷ "href" ∷ "src" ∷ "command"
    ∷ "cmd" ∷ "status" ∷ "error" ∷ "stderr" ∷ "name" ∷ "id" ∷ "task_id" ∷ "tool" ∷ "action" ∷ "pid"
    ∷ "port" ∷ "host" ∷ "ip" ∷ "address" ∷ []

unfoldable pub items_size : Items → ℕ
items_size no_items = 0
items_size (item v vs) = suc (items_size vs)

unfoldable pub take_items : ℕ → Items → Items
take_items zero vs = no_items
take_items (suc n) no_items = no_items
take_items (suc n) (item v vs) = item v (take_items n vs)

unfoldable pub append_item : Items → Json → Items
append_item no_items w = item w no_items
append_item (item v vs) w = item v (append_item vs w)

-- The items that are not in `seen`, each where it stands first.
unfoldable pub unique : List String → List String → List String
unique seen [] = []
unique seen (x ∷ xs) = elim (one_of x seen) [
  | true ↦ unique seen xs
  | false ↦ x ∷ unique (x ∷ seen) xs
]

module _ (texts : Texts) where
  unfoldable pub estimate_tokens : String → ℕ
  estimate_tokens t = max 1 (texts.size t / chars_per_token)

  unfoldable pub sum_tokens : List String → ℕ
  unfolding estimate_tokens
  sum_tokens [] = 0
  sum_tokens (t ∷ ts) = estimate_tokens t + sum_tokens ts

  unfoldable pub estimate_message_tokens : Message → ℕ
  unfolding estimate_tokens sum_tokens
  estimate_message_tokens m =
      estimate_tokens m.content + sum_tokens m.arguments + sum_tokens m.thinking + 4

  unfoldable pub total_tokens : List Message → ℕ
  unfolding estimate_message_tokens
  total_tokens [] = 0
  total_tokens (m ∷ ms) = estimate_message_tokens m + total_tokens ms

  unfoldable pub compress_text : ℕ → String → String
  unfolding unique
  compress_text max_len t =
      let kept =
        texts.paths t
        ++ (texts.numbers t ++ filter (λ k. ltb (texts.size k) 100) (texts.key_values t)) in
      let extracted = texts.join " | " (take 20 (unique [] kept)) in
      let prefix = texts.rstrip (texts.take_text 120 t) in
      let summary =
        if not (extracted == "")
        then String.◌++◌ prefix (String.◌++◌ "... [compressed] key data: " extracted)
        else String.◌++◌ prefix (
            String.◌++◌ "... [compressed, "
              (String.◌++◌ (texts.show (texts.size t)) " chars original]")) in
      if leb (texts.size t) max_len then t else texts.take_text (max_len + 100) summary

  unfoldable pub is_preservable : String → String → Bool
  is_preservable key value =
      one_of (texts.lower key) preserve_keys
      || (texts.has_path value
          || (starts_with value "http://"
              || (starts_with value "https://" || starts_with value "\\\\")))

  unfoldable mutual
    unfolding is_preservable compress_text items_size append_item take_items

    pub compact_value : String → Json → Json
    compact_value key null = null
    compact_value key (boolean b) = boolean b
    compact_value key (number n) = number n
    compact_value key (string t) =
        string (if is_preservable key t || leb (texts.size t) 200 then t else compress_text 300 t)
    compact_value key (array vs) =
        let all = compact_items vs in
        array (
          if leb (items_size vs) 5
          then all
          else append_item (take_items 3 all)
              (string (String.◌++◌ "(+" (String.◌++◌ (texts.show (items_size vs - 3)) " more)"))))
    compact_value key (object fs) = object (compact_fields fs)

    pub compact_items : Items → Items
    compact_items no_items = no_items
    compact_items (item v vs) = item (compact_value "" v) (compact_items vs)

    pub compact_fields : Fields → Fields
    compact_fields no_fields = no_fields
    compact_fields (field k v fs) = field k (compact_value k v) (compact_fields fs)

  unfoldable pub summarize_tool_result : Json → String
  unfolding compact_value compress_text items_size take_items
  summarize_tool_result (object fs) = texts.dumps (object (compact_fields fs))
  summarize_tool_result (array vs) =
      if leb (items_size vs) 3
      then texts.dumps (array (compact_items vs))
      else String.◌++◌ (texts.dumps (array (compact_items (take_items 2 vs))))
          (String.◌++◌ " ... (+" (String.◌++◌ (texts.show (items_size vs - 2)) " more items)"))
  summarize_tool_result other = compress_text 300 (texts.str_of other)

  unfoldable pub compress_tool_message : Message → Message
  unfolding summarize_tool_result compress_text
  compress_tool_message m = record m {
    content = elim (texts.loads m.content) [
      | some v ↦ summarize_tool_result v
      | none ↦ compress_text 300 m.content
    ];
  }

  module _ (g : Manager) where
    -- Both loops: change the messages at the indices, until the messages fit.
    unfoldable pub change_until_fit : (Message → Message) → List ℕ → List Message → List Message
    unfolding total_tokens token_budget
    change_until_fit change [] ms = ms
    change_until_fit change (i ∷ is) ms =
        let rest = change_until_fit change is (modify i change ms) in
        if leb (total_tokens ms) (token_budget g) then ms else rest

    unfoldable pub drop_oldest_tool_results : List Message → List Message
    unfolding change_until_fit compressible_tool_indices
    drop_oldest_tool_results ms = change_until_fit placeholder (compressible_tool_indices g ms) ms

    unfoldable pub compress_if_needed : List Message → List Message
    unfolding drop_oldest_tool_results change_until_fit compressible_tool_indices
        compress_tool_message
    compress_if_needed ms =
        let compressed =
          change_until_fit compress_tool_message (compressible_tool_indices g ms) ms in
        if leb (total_tokens ms) (token_budget g)
        then ms
        else if ltb (token_budget g) (total_tokens compressed)
        then drop_oldest_tool_results compressed
        else compressed
