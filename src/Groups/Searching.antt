-- ===== src/Groups/Searching.antt =====
-- store/group.go: the search for groups by id.
use Prim.Native.Char.{code}
use etemsg_server.Base.{ℕ, String, Bool, true, false, ◌&&◌, ◌||◌, List, map, ◌==◌, ◌=ℕ◌, ltb, take}
use etemsg_server.Base.Table.{select, count_where, sort_by}
use etemsg_server.Accounts.State.{text_leb}
use etemsg_server.Groups.State.{Group, Groups, is_active, in_group}

pub record FoundGroup : Type 0 where
  pub group_id : String
  pub name_enc : List ℕ
  pub creator : String
  pub created_at : ℕ
  pub member_count : ℕ

-- `q` is a prefix of `s`.
abbrev pub has_prefix : String → String → Bool
has_prefix s String.[] = true
has_prefix String.[] (String.◌∷◌ d q) = false
has_prefix (String.◌∷◌ c s) (String.◌∷◌ d q) = let rest = has_prefix s q in code c =ℕ code d && rest

-- ORDER BY created_at DESC, group_id
abbrev pub newest_first : Group → Group → Bool
newest_first g h =
    ltb h.created_at g.created_at
    || (g.created_at =ℕ h.created_at && text_leb g.group_id h.group_id)

abbrev found : Groups → Group → FoundGroup
found db g = record {
  group_id = g.group_id;
  name_enc = g.name_enc;
  creator = g.creator;
  created_at = g.created_at;
  member_count = count_where (in_group g.group_id) db.members;
}

-- The query `q` is without `%` and `_`, and so are group ids without capitals, as the handlers check:
-- `LIKE q || '%'` is then a test for a prefix.
unfoldable pub search_groups_by_id : Groups → String → List FoundGroup
search_groups_by_id db q = map (found db) (
    take 50 (
      sort_by newest_first (
        select (λ g. is_active g.state && (g.group_id == q || has_prefix g.group_id q)) db.groups)))
