-- ===== src/Systems/Path/Tests.antt =====
-- Paths written as bytes: "/a/b.c", and "a" joined with "b".
use c_comprehensive_template.Prelude.{
  Bool, true, ◌≤◌, ◌<◌, ◌≡◌, ◌≢◌, ◌⊎◌, refl, some, none, [], ◌∷◌, ◌++◌, length, arith,
}
use c_comprehensive_template.Core.Error.{ok, overflow}
use c_comprehensive_template.Systems.Path.{
  Str, slash, dot, last_index, int_max, join, basename, dirname, ext,
}
use c_comprehensive_template.Systems.Path.Split.{Without, split_lem}
use c_comprehensive_template.Systems.Path.Join.{Joined, Overflows, join_lem}

abbrev sample : Str
sample = 47 ∷ 97 ∷ 47 ∷ 98 ∷ 46 ∷ 99 ∷ []

ext_runs : ext (some sample) ≡ 46 ∷ 99 ∷ []
unfolding ext basename last_index
ext_runs = refl

split_example :
    Without slash (basename (some sample))
    × (((dirname (some sample) 16 ≡ (ok, some (dot ∷ []))) × (basename (some sample) ≡ sample))
        ⊎ ((d : Str) × (dirname (some sample) 16 ≡ (ok, some d))
            × (((d ≢ []) × (sample ≡ d ++ slash ∷ basename (some sample)))
                ⊎ ((d ≡ slash ∷ []) × (sample ≡ slash ∷ basename (some sample))))))
split_example = split_lem sample 16 (omega arith) (omega arith)

join_example :
    (r : Str) × (printed : Bool) × (way : Joined (97 ∷ []) (98 ∷ []) r printed) × (basename (some r)
      ≡ basename (some (98 ∷ [])))
    × (((join (some (97 ∷ [])) (some (98 ∷ [])) 4 ≡ (ok, some r))
          × (length r < 4)
          × (printed ≡ true → length r ≤ int_max))
        ⊎ ((join (some (97 ∷ [])) (some (98 ∷ [])) 4 ≡ (overflow, none)) × Overflows r printed 4))
join_example = join_lem (97 ∷ []) (98 ∷ []) 4 (omega arith)
