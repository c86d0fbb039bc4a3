-- ===== src/Squid/Errors.antt =====
-- packages/indexer/squid-common/src/errors.ts: the errors of the resolvers, and that of a version
-- that no type knows. Stack traces are left out.
use predictor_common.Prelude.Text.{Text, codes}
use predictor_common.Prelude.{◌++◌}

pub data ErrorCode : Type 0 where
  database_error invalid_input not_found : ErrorCode

-- The enum's values.
abbrev pub code_text : ErrorCode → Text
code_text database_error = codes "DATABASE_ERROR"
code_text invalid_input = codes "INVALID_INPUT"
code_text not_found = codes "NOT_FOUND"

-- The classes that extend `BaseError`.
pub data BaseError : Type 0 where
  database invalid missing : (message : Text) → BaseError

abbrev pub code : BaseError → ErrorCode
code (database message) = database_error
code (invalid message) = invalid_input
code (missing message) = not_found

-- `this.constructor.name`.
abbrev pub name : BaseError → Text
name (database message) = codes "DatabaseError"
name (invalid message) = codes "InvalidInputError"
name (missing message) = codes "NotFoundError"

-- The message of an `UnknownVersionError`, from the name of the wrapper's class.
abbrev pub unknown_version_message : Text → Text
unknown_version_message item = codes "No known version for " ++ item
