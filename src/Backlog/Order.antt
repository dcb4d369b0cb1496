-- ===== src/Backlog/Order.antt =====
-- The order of the backlog of internal/engine/portfolio_backlog.go, and its sort. sort.SliceStable
-- gives the one sorted arrangement that keeps the order of equals, so that insertion serves. The order
-- of the bytes of two texts is that of their code points.
use fluent_task_runtime.Base.{
  ℕ, ◌+◌, code, String, Bool, true, false, not, List, [], ◌∷◌, if◌then◌else◌, ltb, ◌==◌, string_eq,
  nat_eq,
}
use fluent_task_runtime.Portfolio.{PortfolioGroup}
use fluent_task_runtime.Backlog.{BacklogItem}

-- `<` of texts.
unfoldable pub before : String → String → Bool
before String.[] String.[] = false
before String.[] (String.◌∷◌ d t) = true
before (String.◌∷◌ c s) String.[] = false
before (String.◌∷◌ c s) (String.◌∷◌ d t) =
    let rest = before s t in if code c == code d then rest else ltb (code c) (code d)

-- groupOrder, from the index of the first group.
unfoldable pub group_order : ℕ → List PortfolioGroup → String → ℕ
group_order index [] id = index
group_order index (g ∷ groups) id =
    let rest = group_order (index + 1) groups id in if g.id == id then index else rest

-- The function that SliceStable is given.
unfoldable pub less : List PortfolioGroup → BacklogItem → BacklogItem → Bool
less groups i j =
    if not (i.priority == j.priority)
    then ltb i.priority j.priority
    else if not (group_order 0 groups i.group_id == group_order 0 groups j.group_id)
    then ltb (group_order 0 groups i.group_id) (group_order 0 groups j.group_id)
    else if not (i.family_key == j.family_key)
    then before i.family_key j.family_key
    else if not (i.kind == j.kind)
    then before i.kind j.kind
    else ltb i.sequence j.sequence

unfoldable pub insert_item : List PortfolioGroup → BacklogItem → List BacklogItem → List BacklogItem
insert_item groups i [] = i ∷ []
insert_item groups i (j ∷ items) =
    let later = insert_item groups i items in if less groups j i then j ∷ later else i ∷ j ∷ items

unfoldable pub sort_items : List PortfolioGroup → List BacklogItem → List BacklogItem
sort_items groups [] = []
sort_items groups (i ∷ items) = insert_item groups i (sort_items groups items)
