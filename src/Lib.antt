-- ===== src/Lib.antt =====
-- llmd: a versioned document store on SQLite, used from a command line and by agents.
--
-- The program. `internal/store` keeps documents, tags and links in three tables. A document is all
-- the rows of its path: each write adds a version, and nothing is changed in place but the columns
-- path (by a move) and deleted_at (by deletion and restoring). `internal/document` is the service
-- over it: it checks paths, mirrors documents as files and tells the extensions what happened. The
-- packages `internal/edit`, `internal/sed`, `internal/diff`, `internal/cat`, `internal/grep`,
-- `internal/ls`, `internal/revert` and `internal/rm` are commands on top; `internal/sync` brings
-- files that were edited back to the documents, `internal/importer` and `internal/exporter` move
-- documents from and to other directories, and `internal/mcp` offers all of it to agents as tools.
-- `internal/path` and `internal/validate` say which paths, texts, tags and links are accepted,
-- `internal/config` sets their limits, and `internal/repo` keeps the database out of git.
--
-- The files.
--   Prelude: shared names, tests, texts as lists of bytes, and Go's (value, error) as Result.
--   Sql: what the statements are made of, as list functions: WHERE, ORDER BY, UNIQUE, LIKE, UPDATE
--     and DELETE, with their lemmas.
--   Text: what the program uses of Go's strings and strconv.
--   Path, Validate: internal/path (the Unix build) and internal/validate. filepath.Clean is written
--     by its documented rules.
--   Store: internal/store. Document, Tag, Link and Db are the rows and the tables of store/sql; Exec
--     is a method, which may fail and leaves the database that it leaves; tx is a transaction.
--     Store/Read, Write, Move, Tags, Links, Vacuum and Stats hold the methods of the Go files of
--     those names, each by its name (DeleteVersion is delete_version). Their child modules hold the
--     theorems, and so do Store/Keeps and Store/Invariant. Store/Abstract is what the store promises
--     of documents, with rows, ids, keys and times forgotten; its children relate the two.
--   Service: internal/document. Action is a method over the State of the database, the mirror and
--     the events. Service/Read, Write, Edit, Move, Tags and Links hold the methods of read.go,
--     write.go and maint.go, edit.go, move.go, tags.go and links.go, and Service/Compare holds the
--     Diff of read.go; Service/Truth, Reported, Unlinked and Changed hold theorems.
--   Edit, Sed, Diff, Cat, Grep, Duration, Config, Revert, Remove: the packages of internal of those
--     names, less what they print about themselves (Remove is internal/rm).
--   Ls: internal/ls; Ls/Agree compares its two code paths.
--   Sync: internal/sync. A directory is a tree (Node, Entries). Sync.antt scans it and detects
--     changes (sync_detect.go), Sync/Files changes files (sync_fs.go), and Sync/Run writes what was
--     detected (Run of sync.go, runSync of extension/sync). Sync/Scan, Again, Listed, Same,
--     Stored and Converge hold theorems.
--   Import, Export: internal/importer and internal/exporter, on the same trees.
--   Gitignore: internal/repo/repo_gitignore.go, on the text of the file.
--   Glob: internal/glob. Glob/Pattern is filepath.Match of the standard library, by its documented
--     syntax.
--   Commands: the smaller packages: internal/format, tag, history and vacuum.
--   Extension: extension. Extension.antt hands the events of the service to their handlers (fireEvent
--     of internal/document, HandleEvent of extension/link), for which the service itself only notes
--     them; Extension/Truth and Cleanup say what this adds to an operation of the service.
--     Extension/Registry, Link and Documents are registry.go, the commands of extension/link, and
--     restore and rm of extension/document; Extension/Changes has mv, write, revert, edit and sed.
--   Agent: internal/mcp. A Request is what the protocol's library hands over. Agent/Documents,
--     Labels, Tools, Files and Settings hold the handlers of the tools_*.go files, and
--     Agent/Resources those of resources.go; Agent/Server is the dispatch of server.go over the
--     service, the files outside and the configuration. Agent/Audit and Server/Audited say which
--     calls can change what.
--   Tests: runs on small inputs, and each result at a concrete input.
--
-- How the code corresponds. A text is its bytes. A statement of SQL is a list function on the rows
-- in rowid order; an INSERT or an UPDATE of a column of a UNIQUE clause fails with `constraint` if
-- two rows would then agree. Outside of a transaction what a failed method wrote stays. The clock
-- (seconds, or nanoseconds for a vacuum) and the random key are arguments. Counters, versions and
-- times are natural numbers; Go's int is written out where texts are read (Text/Numbers, with the
-- range of 64 bits) and where lines are counted (ranges may be negative). An error is one
-- constructor for each sentinel or message; the text of a message is left out. The age of a
-- vacuum is not negative.
--
-- Parameters. The mirror (Mirror) is any three functions that may fail and leave anything behind.
-- The one of Sync/Files, of which the synchronisation is proved, is that of a system that carries
-- each write to its end; write_upto is a write that may stop on the way. Exports and moves of files
-- are not interrupted either. A path of a file with `..` is refused, where os.Root would go up within
-- its root; the paths of documents have none.
-- strings.ToLower and the comparison of texts by diffmatchpatch are arguments, and so is a regular
-- expression of grep, as the test it makes on a line. Two statements that run at the same time are
-- the two orders in which the database can see them.
--
-- Loops. All recursion is on lists, trees or numbers but for the printing of numbers, which has
-- fuel one above the number.
--
-- Not modelled: opening and migrating the database, full-text search, configuration files, the
-- command find, the printed forms with times and sizes, the flags of the command line and its
-- commands that only show something, the agent server's registration of tools and its tools for
-- what is not modelled, permissions and symbolic links of the file system, and what commands print
-- about themselves.
pub mod Prelude
pub mod Sql
pub mod Text
pub mod Path
pub mod Validate
pub mod Store
pub mod Edit
pub mod Sed
pub mod Service
pub mod Revert
pub mod Remove
pub mod Diff
pub mod Cat
pub mod Duration
pub mod Config
pub mod Grep
pub mod Ls
pub mod Sync
pub mod Commands
pub mod Extension
pub mod Glob
pub mod Agent
pub mod Gitignore
pub mod Import
pub mod Export
pub mod Tests
