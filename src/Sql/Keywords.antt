-- ===== src/Sql/Keywords.antt =====
-- The kinds of tokens and the keywords of lib/sql_parser/sql.c.
use napastak.Base.{ℕ, List, [], ◌∷◌}

pub data TkType : Type 0 where
  tk_eof tk_ident tk_num_int tk_num_float tk_string tk_star tk_comma tk_dot tk_lparen tk_rparen
        tk_eq tk_ne tk_lt tk_le tk_gt tk_ge tk_and tk_or tk_not tk_plus tk_minus tk_slash tk_percent
        tk_concat tk_semicolon tk_error tk_select tk_from tk_where tk_group tk_by tk_having tk_order
        tk_limit tk_offset tk_as tk_join tk_left tk_right tk_full tk_inner tk_outer tk_on
        tk_distinct tk_insert tk_into tk_values tk_null tk_true tk_false tk_is tk_like tk_ilike
        tk_in tk_between tk_asc tk_desc tk_case tk_when tk_then tk_else tk_end tk_union tk_intersect
        tk_except tk_all tk_cross tk_with tk_recursive tk_nulls tk_first tk_last tk_exists tk_cast
        tk_over tk_partition tk_rows tk_range tk_unbounded tk_preceding tk_following tk_current
        tk_row tk_update tk_set tk_delete tk_begin tk_commit tk_rollback tk_transaction :
      TkType

-- The text of each keyword, in capital letters.
unfoldable pub keywords : List (List ℕ × TkType)
keywords =
    (83 ∷ 69 ∷ 76 ∷ 69 ∷ 67 ∷ 84 ∷ [], tk_select)
    ∷ (70 ∷ 82 ∷ 79 ∷ 77 ∷ [], tk_from)
    ∷ (87 ∷ 72 ∷ 69 ∷ 82 ∷ 69 ∷ [], tk_where)
    ∷ (71 ∷ 82 ∷ 79 ∷ 85 ∷ 80 ∷ [], tk_group)
    ∷ (66 ∷ 89 ∷ [], tk_by)
    ∷ (72 ∷ 65 ∷ 86 ∷ 73 ∷ 78 ∷ 71 ∷ [], tk_having)
    ∷ (79 ∷ 82 ∷ 68 ∷ 69 ∷ 82 ∷ [], tk_order)
    ∷ (76 ∷ 73 ∷ 77 ∷ 73 ∷ 84 ∷ [], tk_limit)
    ∷ (79 ∷ 70 ∷ 70 ∷ 83 ∷ 69 ∷ 84 ∷ [], tk_offset)
    ∷ (65 ∷ 83 ∷ [], tk_as)
    ∷ (74 ∷ 79 ∷ 73 ∷ 78 ∷ [], tk_join)
    ∷ (76 ∷ 69 ∷ 70 ∷ 84 ∷ [], tk_left)
    ∷ (82 ∷ 73 ∷ 71 ∷ 72 ∷ 84 ∷ [], tk_right)
    ∷ (70 ∷ 85 ∷ 76 ∷ 76 ∷ [], tk_full)
    ∷ (73 ∷ 78 ∷ 78 ∷ 69 ∷ 82 ∷ [], tk_inner)
    ∷ (79 ∷ 85 ∷ 84 ∷ 69 ∷ 82 ∷ [], tk_outer)
    ∷ (79 ∷ 78 ∷ [], tk_on)
    ∷ (68 ∷ 73 ∷ 83 ∷ 84 ∷ 73 ∷ 78 ∷ 67 ∷ 84 ∷ [], tk_distinct)
    ∷ (73 ∷ 78 ∷ 83 ∷ 69 ∷ 82 ∷ 84 ∷ [], tk_insert)
    ∷ (73 ∷ 78 ∷ 84 ∷ 79 ∷ [], tk_into)
    ∷ (86 ∷ 65 ∷ 76 ∷ 85 ∷ 69 ∷ 83 ∷ [], tk_values)
    ∷ (78 ∷ 85 ∷ 76 ∷ 76 ∷ [], tk_null)
    ∷ (84 ∷ 82 ∷ 85 ∷ 69 ∷ [], tk_true)
    ∷ (70 ∷ 65 ∷ 76 ∷ 83 ∷ 69 ∷ [], tk_false)
    ∷ (73 ∷ 83 ∷ [], tk_is)
    ∷ (76 ∷ 73 ∷ 75 ∷ 69 ∷ [], tk_like)
    ∷ (73 ∷ 76 ∷ 73 ∷ 75 ∷ 69 ∷ [], tk_ilike)
    ∷ (73 ∷ 78 ∷ [], tk_in)
    ∷ (66 ∷ 69 ∷ 84 ∷ 87 ∷ 69 ∷ 69 ∷ 78 ∷ [], tk_between)
    ∷ (65 ∷ 78 ∷ 68 ∷ [], tk_and)
    ∷ (79 ∷ 82 ∷ [], tk_or)
    ∷ (78 ∷ 79 ∷ 84 ∷ [], tk_not)
    ∷ (65 ∷ 83 ∷ 67 ∷ [], tk_asc)
    ∷ (68 ∷ 69 ∷ 83 ∷ 67 ∷ [], tk_desc)
    ∷ (67 ∷ 65 ∷ 83 ∷ 69 ∷ [], tk_case)
    ∷ (87 ∷ 72 ∷ 69 ∷ 78 ∷ [], tk_when)
    ∷ (84 ∷ 72 ∷ 69 ∷ 78 ∷ [], tk_then)
    ∷ (69 ∷ 76 ∷ 83 ∷ 69 ∷ [], tk_else)
    ∷ (69 ∷ 78 ∷ 68 ∷ [], tk_end)
    ∷ (85 ∷ 78 ∷ 73 ∷ 79 ∷ 78 ∷ [], tk_union)
    ∷ (73 ∷ 78 ∷ 84 ∷ 69 ∷ 82 ∷ 83 ∷ 69 ∷ 67 ∷ 84 ∷ [], tk_intersect)
    ∷ (69 ∷ 88 ∷ 67 ∷ 69 ∷ 80 ∷ 84 ∷ [], tk_except)
    ∷ (65 ∷ 76 ∷ 76 ∷ [], tk_all)
    ∷ (67 ∷ 82 ∷ 79 ∷ 83 ∷ 83 ∷ [], tk_cross)
    ∷ (87 ∷ 73 ∷ 84 ∷ 72 ∷ [], tk_with)
    ∷ (82 ∷ 69 ∷ 67 ∷ 85 ∷ 82 ∷ 83 ∷ 73 ∷ 86 ∷ 69 ∷ [], tk_recursive)
    ∷ (78 ∷ 85 ∷ 76 ∷ 76 ∷ 83 ∷ [], tk_nulls)
    ∷ (70 ∷ 73 ∷ 82 ∷ 83 ∷ 84 ∷ [], tk_first)
    ∷ (76 ∷ 65 ∷ 83 ∷ 84 ∷ [], tk_last)
    ∷ (69 ∷ 88 ∷ 73 ∷ 83 ∷ 84 ∷ 83 ∷ [], tk_exists)
    ∷ (67 ∷ 65 ∷ 83 ∷ 84 ∷ [], tk_cast)
    ∷ (79 ∷ 86 ∷ 69 ∷ 82 ∷ [], tk_over)
    ∷ (80 ∷ 65 ∷ 82 ∷ 84 ∷ 73 ∷ 84 ∷ 73 ∷ 79 ∷ 78 ∷ [], tk_partition)
    ∷ (82 ∷ 79 ∷ 87 ∷ 83 ∷ [], tk_rows)
    ∷ (82 ∷ 65 ∷ 78 ∷ 71 ∷ 69 ∷ [], tk_range)
    ∷ (85 ∷ 78 ∷ 66 ∷ 79 ∷ 85 ∷ 78 ∷ 68 ∷ 69 ∷ 68 ∷ [], tk_unbounded)
    ∷ (80 ∷ 82 ∷ 69 ∷ 67 ∷ 69 ∷ 68 ∷ 73 ∷ 78 ∷ 71 ∷ [], tk_preceding)
    ∷ (70 ∷ 79 ∷ 76 ∷ 76 ∷ 79 ∷ 87 ∷ 73 ∷ 78 ∷ 71 ∷ [], tk_following)
    ∷ (67 ∷ 85 ∷ 82 ∷ 82 ∷ 69 ∷ 78 ∷ 84 ∷ [], tk_current)
    ∷ (82 ∷ 79 ∷ 87 ∷ [], tk_row)
    ∷ (85 ∷ 80 ∷ 68 ∷ 65 ∷ 84 ∷ 69 ∷ [], tk_update)
    ∷ (83 ∷ 69 ∷ 84 ∷ [], tk_set)
    ∷ (68 ∷ 69 ∷ 76 ∷ 69 ∷ 84 ∷ 69 ∷ [], tk_delete)
    ∷ (66 ∷ 69 ∷ 71 ∷ 73 ∷ 78 ∷ [], tk_begin)
    ∷ (67 ∷ 79 ∷ 77 ∷ 77 ∷ 73 ∷ 84 ∷ [], tk_commit)
    ∷ (82 ∷ 79 ∷ 76 ∷ 76 ∷ 66 ∷ 65 ∷ 67 ∷ 75 ∷ [], tk_rollback)
    ∷ (84 ∷ 82 ∷ 65 ∷ 78 ∷ 83 ∷ 65 ∷ 67 ∷ 84 ∷ 73 ∷ 79 ∷ 78 ∷ [], tk_transaction)
    ∷ []
