-- ===== src/MysqlCopy/Schema/Tests.antt =====
-- Tests of normalizeSchema.
use runner.Prelude.{◌≡◌, refl, ◌⊎◌}
use runner.Prelude.Bytes.{codes}
use runner.MysqlCopy.Schema.{normalize_schema}
use runner.MysqlCopy.Schema.Only.{IsCut, normalize_schema-cuts_one}

removes_option :
    normalize_schema
      (codes "CREATE TABLE `a` (`id` int AUTO_INCREMENT) ENGINE=InnoDB AUTO_INCREMENT=17 C=1;")
    ≡ codes "CREATE TABLE `a` (`id` int AUTO_INCREMENT) ENGINE=InnoDB C=1;"
unfolding normalize_schema
removes_option = refl

normalize_schema-cuts_one_example :
    (normalize_schema (codes "`a` (`b` int) AUTO_INCREMENT=17")
      ≡ codes "`a` (`b` int) AUTO_INCREMENT=17")
    ⊎ IsCut
        (codes "`a` (`b` int) AUTO_INCREMENT=17")
        (normalize_schema (codes "`a` (`b` int) AUTO_INCREMENT=17"))
normalize_schema-cuts_one_example =
    normalize_schema-cuts_one (codes "`a` (`b` int) AUTO_INCREMENT=17")
