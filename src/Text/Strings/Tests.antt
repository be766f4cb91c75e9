-- ===== src/Text/Strings/Tests.antt =====
-- `split` and `replace` of src/main/c/StringUtil.cpp, as src/test/c/StringUtilTests.cpp runs them.
use seasocks.Prelude.{◌≡◌, refl, [], ◌∷◌, codes, arith, All}
use seasocks.Text.Strings.{
  find_char, split_step, split_loop, split, starts_with, find_string, replace_step, replace_loop,
  replace,
}
use seasocks.Text.Strings.Split.{join, join-split, Without}
use seasocks.Text.Strings.Replace.{Replaced, replace-Replaced}

split_of_lines : split (codes "a,,b") b',' ≡ codes "a" ∷ [] ∷ codes "b" ∷ []
unfolding split split_loop split_step find_char
split_of_lines = refl

replace_all :
    replace (codes "I want a beer") (codes "beer") (codes "cup of tea")
    ≡ codes "I want a cup of tea"
unfolding replace replace_loop replace_step find_string starts_with
replace_all = refl

join-split_example :
    (join b',' (split (codes "a,,b") b',') ≡ codes "a,,b")
    × All (Without b',') (split (codes "a,,b") b',')
join-split_example = join-split (codes "a,,b") b','

replace-Replaced_example :
    Replaced
      (codes "aa")
      (codes "b")
      (codes "aaaxaa")
      (replace (codes "aaaxaa") (codes "aa") (codes "b"))
replace-Replaced_example = replace-Replaced (codes "aaaxaa") (codes "aa") (codes "b") (omega arith)
