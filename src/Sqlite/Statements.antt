-- ===== src/Sqlite/Statements.antt =====
-- The statements of src/csync_statedb.c.
use Prim.Native.String.{String}

abbrev pub drop_metadata : String
drop_metadata = "DROP TABLE IF EXISTS metadata;"

abbrev pub create_metadata_temp : String
create_metadata_temp =
    "CREATE TABLE IF NOT EXISTS metadata_temp(phash INTEGER(8),pathlen INTEGER,path VARCHAR(4096),inode INTEGER,uid INTEGER,gid INTEGER,mode INTEGER,modtime INTEGER(8),PRIMARY KEY(phash));"

abbrev pub create_metadata : String
create_metadata =
    "CREATE TABLE IF NOT EXISTS metadata(phash INTEGER(8),pathlen INTEGER,path VARCHAR(4096),inode INTEGER,uid INTEGER,gid INTEGER,mode INTEGER,modtime INTEGER(8),PRIMARY KEY(phash));"

abbrev pub index_phash : String
index_phash = "CREATE INDEX IF NOT EXISTS metadata_phash ON metadata(phash);"

abbrev pub index_inode : String
index_inode = "CREATE INDEX IF NOT EXISTS metadata_inode ON metadata(inode);"

abbrev pub insert_row : String
insert_row = "INSERT INTO metadata_temp VALUES (?1, ?2, ?3, ?4, ?5, ?6, ?7, ?8)"

abbrev pub rename_metadata : String
rename_metadata = "ALTER TABLE metadata RENAME TO metadata_wait;"

abbrev pub rename_metadata_temp : String
rename_metadata_temp = "ALTER TABLE metadata_temp RENAME TO metadata;"

abbrev pub drop_metadata_wait : String
drop_metadata_wait = "DROP TABLE metadata_wait;"

abbrev pub begin_transaction : String
begin_transaction = "BEGIN TRANSACTION"

abbrev pub commit_transaction : String
commit_transaction = "COMMIT TRANSACTION"

abbrev pub select_by_hash : String
select_by_hash = "SELECT * FROM metadata WHERE phash='%llu'"

abbrev pub select_by_inode : String
select_by_inode = "SELECT * FROM metadata WHERE inode='%llu'"

abbrev pub count_metadata : String
count_metadata = "SELECT COUNT(phash) FROM metadata LIMIT 1 OFFSET 0;"

abbrev pub default_synchronous : String
default_synchronous = "PRAGMA default_synchronous = OFF;"
