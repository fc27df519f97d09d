-- ===== src/Examples/Runs.antt =====
-- Runs of the small functions.
use proteus_java.Common.{◌≡◌, refl, [], ◌∷◌, codes}
use proteus_java.Names.{mixed_loop, mixed_lower, to_all_upper_case, hash_step, hash_from, hash}
use proteus_java.Chars.{is_upper, is_lower, to_lower, to_upper}
use proteus_java.Ids.{digits_up_to, decimal, to_string}
use proteus_java.Split.{
  split, split_one, scan_token, split_any, find_first_of, find_first_not_of, find_from, is_delim,
}
use proteus_java.Javadoc.{escape_char, escape_from, escape_javadoc}
use proteus_java.Plugin.{slashes, java_package_to_dir}

mixed_lower_run : mixed_lower (codes "Get_user_name") ≡ codes "getUserName"
unfolding mixed_lower mixed_loop to_lower to_upper is_upper is_lower
mixed_lower_run = refl

-- A name that Java reserves.
mixed_lower_reserved_run : mixed_lower (codes "Return") ≡ codes "return"
unfolding mixed_lower mixed_loop to_lower to_upper is_upper is_lower
mixed_lower_reserved_run = refl

to_all_upper_case_run : to_all_upper_case (codes "getUserName") ≡ codes "GET_USER_NAME"
unfolding to_all_upper_case to_upper is_upper is_lower
to_all_upper_case_run = refl

hash_run : hash (codes "a") ≡ 3826002220
unfolding hash hash_from hash_step
hash_run = refl

to_string_run : to_string 4294967286 ≡ codes "-10"
unfolding to_string decimal digits_up_to
to_string_run = refl

split_run : split (codes "\na\n\nb") (codes "\n") ≡ codes "a" ∷ codes "b" ∷ []
unfolding split split_one scan_token
split_run = refl

split_many_run : split (codes ", a,b ") (codes ", ") ≡ codes "a" ∷ codes "b" ∷ []
unfolding split split_any find_first_of find_first_not_of find_from is_delim
split_many_run = refl

escape_javadoc_run : escape_javadoc (codes "/ a */ <b>") ≡ codes "&#47; a *&#47; &lt;b&gt;"
unfolding escape_javadoc escape_from escape_char
escape_javadoc_run = refl

java_package_to_dir_run : java_package_to_dir (codes "com.example") ≡ codes "com/example/"
unfolding java_package_to_dir slashes
java_package_to_dir_run = refl
