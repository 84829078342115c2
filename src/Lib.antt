-- ===== src/Lib.antt =====
-- A verification library for gol, the command line tool that builds, updates and queries
-- GeoDesk's geographic object libraries: its core data structures as executable functions, and
-- theorems about them.
--
-- The program's parts. `gol build` counts strings and the nodes of each cell of a grid, gives
-- frequent strings codes, lays a pyramid of tiles over the counts of nodes, sorts the features into one pile for each tile, keeps the pile of every feature
-- in a packed array, and compiles each pile into a tile. Rules over tags tell which features are
-- areas. The tile compiler gives a tile its spatial indexes by category and lays its elements out.
-- `gol update` refers to features by packed references, and writes the changes of each tile as a
-- tile exchange file, which the reader applies to the tile. The network
-- helpers cut URLs.
--
-- Which file models which part:
--   * Build/TileIndexBuilder.antt (src/build/analyze/TileIndexBuilder.h and .cpp): the tiers of the
--     pyramid, createLeafTiles, addParentTiles, trimTiles and linkChildTiles, over a store of tiles;
--     its child Tips.antt has assignTip, Piles.antt has buildTile, fillGrid and build, and
--     Pyramid.antt, Tips/Entries.antt and Piles/Preorder.antt have the theorems.
--   * Build/FeatureIndex.antt (src/build/sort/FastFeatureIndex.h and .cpp,
--     src/build/util/MappedIndex.h and .cpp): the packed array, its batches of writes and its size;
--     its child Batch.antt has what a batch does to the memory.
--   * Build/StringStatistics.antt (src/build/util/StringStatistics.h and .cpp): the counters of
--     strings in an arena; Entries.antt says what list of tallies they hold, and Lookup.antt and
--     Removal.antt what the operations do to it.
--   * Build/Analyzer.antt (processTask of src/build/analyze/Analyzer.cpp): the merge of a worker's
--     counters into the global ones.
--   * Build/StringCatalog.antt (src/build/util/StringCatalog.h and .cpp, ProtoString.h, ProtoGol.h):
--     the global string table and the codes of frequent strings; Bounds.antt has the table, and
--     Reading.antt a string's way through a pile, which Strings.antt models.
--   * Build/NodeCountTable.antt (src/build/analyze/NodeCountTable.h and .cpp): the counts of nodes, saved
--     and loaded.
--   * Build/SuperRelation.antt (src/build/sort/SuperRelation.h and .cpp): the removal of missing child
--     relations from a relation's members and body.
--   * Build/SuperRelationResolver.antt (src/build/sort/SuperRelationResolver.h and .cpp): the levels of
--     relations that are members of each other, and how cycles are broken; Score.antt has calculateScore.
--     Retry.antt has the loop around the call for a child, Calls.antt that over the members, and
--     Resolved.antt and Adding.antt have resolve and add.
--   * Tag/AreaClassifier.antt (src/tag/AreaClassifier.h and .cpp): the table of rules; its child
--     Parser.antt has parseRules, and Tags.antt has isArea.
--   * Tag/TagTableModel.antt (src/tag/TagTableModel.h): the tags of a feature, local keys first; Writer.antt
--     has getTagTable of src/build/compile/TagTableBuilder.cpp with src/tile/compiler/TagTableWriter.h.
--   * Tile/Element.antt (src/tile/model/TElement.h) and Tile/Layout.antt (src/tile/model/Layout.h and
--     .cpp): the elements of a tile and where they are placed; Tile/Queues.antt states what the
--     layout uses of the queues of the clarisma library.
--   * Tile/HilbertIndex.antt (src/tile/compiler/HilbertIndexBuilder.h and .cpp): the spatial index.
--   * Tile/KeyIndex.antt (src/tile/model/TIndex.h and .cpp): the indexes of a tile by category, which
--     takes the spatial index as a parameter; Ring.antt is about the rings of features, Chain.antt,
--     Sorting.antt, Cutting.antt, Merging.antt and Closing.antt about the chain of roots.
--   * Change/CRef.antt (src/change/model/CRef.h): the packed references.
--   * Change/TagTable.antt (src/change/model/CTagTable.h and .cpp): the updater's tag tables; Fields.antt
--     has their fields and sizes, and Equals.antt what their comparison looks at.
--   * Tes/Index.antt (writeFeatureIndex and writeRemovedFeatures of src/change/ChangeWriter.cpp and
--     src/tile/tes/TesWriter.cpp; readFeatureIndex and readRemovedFeatures of
--     src/tile/tes/TesReader.cpp): the feature index of a tile exchange file. Tes/Access.antt has the
--     reader's accesses by number.
--   * Tes/Tags.antt (writeTagTable of src/change/ChangeWriter.cpp, readTagTable of
--     src/tile/tes/TesReader.cpp): tag tables of an exchange file; Checker.antt has the global tags of
--     src/tile/tes/TesChecker.cpp.
--   * Tes/Wire.antt: what these use of the clarisma library's variable-length numbers, as an interface
--     with laws and an instance for the examples.
--   * Net/Url.antt (include/clarisma/net/UrlView.h, src/clarisma/net/UrlView.cpp): the parts of a URL.
--   * Prelude.antt and its children: the names shared, and lemmas on lists, numbers and bits.
-- A module's theorems are in its child modules, and each has a module of tests.
--
-- How the code is read. A number is a natural number, its wrap-around written out where the source
-- can reach it; an object that the code changes is passed on as a record; a store of objects is a
-- map from their addresses. Loops are recursion on a list or on a count. Where they are neither, fuel
-- bounds them: the layout's loops take the length of the queue, the chain of roots has at most 32
-- entries, the levels of the spatial index shrink, the pyramid has at most 13 tiers, and the rules have
-- at most as many keys as entries; a loop that reads an exchange file is given as many rounds as there are
-- entries, the chain of a slot runs towards the start of the arena, and a counter is merged within 32
-- turns, since the threshold doubles, and resolve has fuel for each relation that it can enter and each
-- member that it can remove. Assertions are left out, as in a release build.
--
-- Parameters are the code outside the repository: the clarisma queues, the geometry of boxes and tiles,
-- the variable-length numbers, the
-- sorts and the floating-point numbers of the standard library, the dictionary of global strings, the scanner of the rules, the hashes and stored sizes of strings, and
-- the test for numbers that are stored as such.
--
-- Not modelled: reading and writing of files, threads, the console, the feature store and its tiles
-- in memory, the rest of the tile exchange format (strings, geometry, way nodes, tables
-- of members and of parent relations), the change
-- analysis of the updater, and the commands.
pub mod Prelude
pub mod Build
pub mod Change
pub mod Net
pub mod Tag
pub mod Tes
pub mod Tile
